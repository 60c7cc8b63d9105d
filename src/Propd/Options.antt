-- ===== src/Propd/Options.antt =====
-- `propd_config_parse` of lib/propd.c: what the options of the command line make of a configuration.
pub mod Table
use propd.Prelude.{
  ℕ, ◌+◌, Text, Bool, true, false, List, [], ◌∷◌, Option, none, some, Reply, ok, err, fault, Done,
  done, length, drop, get_elem?, ltb, if◌then◌else◌,
}
use propd.Storage.{Storage}
use propd.Route.{Item, register, route_item_destroy}
use propd.Value.Numerals.{strtoul}
use propd.Misc.Array.{arrayparse_cstring}
use propd.Propd.{Config}

-- `storage_parseConfig_t`: the name of its option, how many arguments stand before the name of the
-- storage, and what makes the storage of its name and the arguments.
pub record ParseConfig (W : Type 0) : Type 0 where
  pub name : Text
  pub arg_num : ℕ
  pub parse : Text → List Text → Reply (Storage W)

-- What `getopt_long` answers, with the option's argument. The options of the log change nothing here;
-- `option_parser` is the option of a parser, by its place in the list.
pub data Opt : Type 0 where
  option_log option_daemon option_help option_unknown : Opt
  option_namespace option_cache option_duration option_name : Text → Opt
  option_caches option_prefixes option_children option_parents : Text → Opt
  option_parser : ℕ → Text → Opt

-- The configuration, the end of the program with a code and the effects on the storages, or a fault.
pub data Parsed (W : Type 0) : Type 0 where
  goes : Config W → Parsed W
  exits : ℕ → W → Parsed W
  faults : Parsed W

-- `strtoul(optarg, NULL, 0)`, which is 0 where there is no number.
unfoldable pub number : Text → ℕ
unfolding strtoul
number s = elim (strtoul s) [ none ↦ 0 | some r ↦ r.0 ]

module _ {W : Type 0} where
  -- `propd_config_apply_parser`
  unfoldable pub propd_config_apply_parser :
      List (ParseConfig W) → ParseConfig W → List (ParseConfig W)
  propd_config_apply_parser parsers p = p ∷ parsers

  -- The loop behind the label `error`.
  unfoldable pub destroy_items : List (Item W) → W → W
  unfolding route_item_destroy
  destroy_items [] w = w
  destroy_items (x ∷ xs) w = destroy_items xs (route_item_destroy x w)

  unfoldable pub error : Config W → W → Parsed W
  unfolding destroy_items
  error c w = exits 1 (destroy_items c.local_route w)

  unfoldable pub put_list : Config W → W → (List Text → Config W) → Reply (List Text × ℕ) → Parsed W
  unfolding error
  put_list c w put (ok (l, n)) = goes (put l)
  put_list c w put (err e) = error c w
  put_list c w put fault = faults

  -- A list of names, put where the option wants it.
  unfoldable pub parse_list : Bool → Config W → W → (List Text → Config W) → Text → Parsed W
  unfolding put_list arrayparse_cstring
  parse_list granted c w put s = put_list c w put (arrayparse_cstring granted s)

  unfoldable pub after_register : Config W → W → Done × List (Item W) → Parsed W
  unfolding error
  after_register c w (ok u, table) = goes (record c { local_route = table })
  after_register c w (err e, table) = error c w
  after_register c w (fault, table) = faults

  unfoldable pub register_parsed :
      Config W → W → List Text → Option ℕ → Reply (Storage W) → Parsed W
  unfolding register error after_register
  register_parsed c w prefix item (ok storage) =
      after_register c w (register c.local_route storage prefix item)
  register_parsed c w prefix item (err e) = error c w
  register_parsed c w prefix item fault = faults

  unfoldable pub parse_named :
      Config W → W → Option ℕ → ParseConfig W → List Text → Option Text → Parsed W
  unfolding register_parsed
  parse_named c w item p args none = faults
  parse_named c w item p args (some name) =
      register_parsed c w (drop (p.arg_num + 1) args) item (p.parse name args)

  -- The arguments of a parser, the name and at least one prefix.
  unfoldable pub parse_item :
      Config W → W → Option ℕ → ParseConfig W → Reply (List Text × ℕ) → Parsed W
  unfolding parse_named error
  parse_item c w item p (ok (args, num)) =
      if ltb num (p.arg_num + 2)
      then error c w
      else parse_named c w item p args (get_elem? args p.arg_num)
  parse_item c w item p (err e) = error c w
  parse_item c w item p fault = faults

  unfoldable pub parse_parser :
      Bool → Option ℕ → Config W → W → Option (ParseConfig W) → Text → Parsed W
  unfolding parse_item arrayparse_cstring
  parse_parser granted item c w none s = faults
  parse_parser granted item c w (some p) s = parse_item c w item p (arrayparse_cstring granted s)

  -- One round of the loop. `granted` is the memory of an array, and `item` that of an item.
  unfoldable pub parse_option :
      List (ParseConfig W) → Bool → Option ℕ → Config W → W → Opt → Parsed W
  unfolding parse_list parse_parser number
  parse_option parsers granted item c w option_log = goes c
  parse_option parsers granted item c w option_daemon = goes (record c { daemon = true })
  parse_option parsers granted item c w option_help = exits 0 w
  parse_option parsers granted item c w option_unknown = exits 1 w
  parse_option parsers granted item c w (option_namespace s) =
      goes (record c { namespace = some s })
  parse_option parsers granted item c w (option_cache s) =
      goes (record c { cache_interval = number s })
  parse_option parsers granted item c w (option_duration s) =
      goes (record c { cache_default_duration = number s })
  parse_option parsers granted item c w (option_name s) = goes (record c { name = some s })
  parse_option parsers granted item c w (option_caches s) =
      parse_list granted c w (λ l. record c { caches = l }) s
  parse_option parsers granted item c w (option_prefixes s) =
      parse_list granted c w (λ l. record c { prefixes = l }) s
  parse_option parsers granted item c w (option_children s) =
      parse_list granted c w (λ l. record c { children = l }) s
  parse_option parsers granted item c w (option_parents s) =
      parse_list granted c w (λ l. record c { parents = l }) s
  parse_option parsers granted item c w (option_parser i s) =
      parse_parser granted item c w (get_elem? parsers i) s

  unfoldable pub go_on : (Config W → Parsed W) → Parsed W → Parsed W
  go_on rest (goes c) = rest c
  go_on rest (exits n w) = exits n w
  go_on rest faults = faults

  -- The loop, with what `malloc` answers in each round.
  unfoldable pub parse_options :
      List (ParseConfig W) → Config W → W → List (Opt × Bool × Option ℕ) → Parsed W
  unfolding parse_option go_on
  parse_options parsers c w [] = goes c
  parse_options parsers c w ((opt, granted, item) ∷ opts) =
      go_on (λ c'. parse_options parsers c' w opts) (parse_option parsers granted item c w opt)

  -- The Boolean grants the memory of the table of options.
  unfoldable pub propd_config_parse :
      Bool → List (ParseConfig W) → Config W → W → List (Opt × Bool × Option ℕ) → Parsed W
  unfolding parse_options
  propd_config_parse made parsers c w opts =
      if made then parse_options parsers c w opts else exits 1 w
