-- ===== src/Propd/Options/Table.antt =====
-- The storages that the options of lib/propd.c leave in the configuration.
use propd.Prelude.{
  ℕ, ◌+◌, ◌≤◌, ◌<◌, ◌≡◌, refl, sym, subst, Text, Bool, true, false, List, [], ◌∷◌, All, Option,
  none, some, Reply, ok, err, enomem, ◌≢◌, fault, Done, length, drop, get_elem?, ltb, if◌then◌else◌,
  arith, pos, length-drop, Bool-cases, inl, inr, ltb-false,
}
use propd.Storage.{Storage}
use propd.Route.{Item, register}
use propd.Route.Register.{UniqueNames, register-UniqueNames}
use propd.Propd.{Config}
use propd.Propd.Options.{
  ParseConfig, Opt, option_log, option_daemon, option_help, option_unknown, option_namespace,
  option_cache, option_duration, option_name, option_caches, option_prefixes, option_children,
  option_parents, option_parser, Parsed, goes, exits, faults, error, put_list, parse_list,
  after_register, register_parsed, parse_named, parse_item, parse_parser, parse_option, go_on,
  parse_options, propd_config_parse,
}
use propd.Misc.Array.{
  arrayparse_cstring, arraydup_cstring, with_number, fields, count_fields, count_cells,
}
use propd.Misc.Array.RoundTrip.{arrayparse_cstring-fields}

-- The number that `arrayparse_cstring` counts is that of the texts.
abbrev Counted : Reply (List Text × ℕ) → Type 0
Counted (ok (l, n)) = n ≡ length l
Counted (err e) = Unit
Counted fault = Unit

array_of-Counted :
    (granted : Bool) (l : List Text) → Counted (if granted then ok (l, length l) else err enomem)
array_of-Counted true l = refl
array_of-Counted false l = tt

not_empty : (c : ℕ) (s : Text) → (c ∷ s) ≢ []
not_empty c s = ground arith

empty_fault : Counted (arrayparse_cstring true [])
unfolding arrayparse_cstring arraydup_cstring with_number fields count_fields count_cells
empty_fault = tt

empty_refused : Counted (arrayparse_cstring false [])
unfolding arrayparse_cstring arraydup_cstring with_number fields count_fields count_cells
empty_refused = tt

arrayparse_cstring-Counted : (granted : Bool) (s : Text) → Counted (arrayparse_cstring granted s)
arrayparse_cstring-Counted granted (c ∷ s) =
    subst Counted (sym (arrayparse_cstring-fields granted (c ∷ s) (not_empty c s)))
      (array_of-Counted granted (fields (c ∷ s)))
arrayparse_cstring-Counted true [] = empty_fault
arrayparse_cstring-Counted false [] = empty_refused

module _ {W : Type 0} where
  -- Storages of different names, each with a prefix at least and no reference.
  pub record Prepared (list : List (Item W)) : Type 0 where
    pub unique : UniqueNames list
    pub ready : All (λ x. (0 < length x.prefix) × (x.nref ≡ pos 0)) list

  -- The configuration that the loop goes on with is prepared.
  abbrev GoesPrepared : Parsed W → Type 0
  GoesPrepared (goes c) = Prepared c.local_route
  GoesPrepared (exits n w) = Unit
  GoesPrepared faults = Unit

  register-ready :
      (list : List (Item W)) (s : Storage W) (prefix : List Text) (addr : Option ℕ)
      → 0 < length prefix
      → All (λ x. (0 < length x.prefix) × (x.nref ≡ pos 0)) list
      → All (λ x. (0 < length x.prefix) × (x.nref ≡ pos 0)) (register list s prefix addr).1
  unfolding register
  register-ready list s prefix none some_prefix h = ground arith
  register-ready list s prefix (some a) some_prefix h = ground arith

  after_register-GoesPrepared :
      (c : Config W) (w : W) (made : Done × List (Item W))
      → Prepared made.1
      → GoesPrepared (after_register c w made)
  unfolding after_register error
  after_register-GoesPrepared c w (ok u, table) h = h
  after_register-GoesPrepared c w (err e, table) h = tt
  after_register-GoesPrepared c w (fault, table) h = tt

  register_parsed-GoesPrepared :
      (c : Config W) (w : W) (prefix : List Text) (item : Option ℕ) (storage : Reply (Storage W))
      → 0 < length prefix
      → Prepared c.local_route
      → GoesPrepared (register_parsed c w prefix item storage)
  unfolding register_parsed error
  register_parsed-GoesPrepared c w prefix item (ok storage) some_prefix h =
      after_register-GoesPrepared c w (register c.local_route storage prefix item) (record {
        unique = register-UniqueNames c.local_route storage prefix item h.unique;
        ready = register-ready c.local_route storage prefix item some_prefix h.ready;
      })
  register_parsed-GoesPrepared c w prefix item (err e) some_prefix h = tt
  register_parsed-GoesPrepared c w prefix item fault some_prefix h = tt

  put_list-GoesPrepared :
      (c : Config W) (w : W) (put : List Text → Config W) (parsed : Reply (List Text × ℕ))
      → ((l : List Text) → (put l).local_route ≡ c.local_route)
      → Prepared c.local_route
      → GoesPrepared (put_list c w put parsed)
  unfolding put_list error
  put_list-GoesPrepared c w put (ok (l, n)) same h = subst Prepared (sym (same l)) h
  put_list-GoesPrepared c w put (err e) same h = tt
  put_list-GoesPrepared c w put fault same h = tt

  parse_named-GoesPrepared :
      (c : Config W) (w : W) (item : Option ℕ) (p : ParseConfig W) (args : List Text)
      (name : Option Text)
      → p.arg_num + 2 ≤ length args
      → Prepared c.local_route
      → GoesPrepared (parse_named c w item p args name)
  unfolding parse_named
  parse_named-GoesPrepared c w item p args none enough h = tt
  parse_named-GoesPrepared c w item p args (some name) enough h =
      register_parsed-GoesPrepared c w (drop (p.arg_num + 1) args) item (p.parse name args)
        (omega (arith, length-drop (p.arg_num + 1) args)) h

  parse_item-GoesPrepared :
      (c : Config W) (w : W) (item : Option ℕ) (p : ParseConfig W) (parsed : Reply (List Text × ℕ))
      → Counted parsed
      → Prepared c.local_route
      → GoesPrepared (parse_item c w item p parsed)
  unfolding parse_item error
  parse_item-GoesPrepared c w item p (ok (args, num)) counted h =
      elim (Bool-cases (ltb num (p.arg_num + 2))) [
        | inl few ↦ rw (few, parse_item) tt
        | inr enough ↦
            rw (enough, parse_item)
              (parse_named-GoesPrepared c w item p args _
                (omega (arith, ltb-false num (p.arg_num + 2) enough)) h)
      ]
  parse_item-GoesPrepared c w item p (err e) counted h = tt
  parse_item-GoesPrepared c w item p fault counted h = tt

  parse_parser-GoesPrepared :
      (granted : Bool) (item : Option ℕ) (c : Config W) (w : W) (p : Option (ParseConfig W))
      (s : Text)
      → Prepared c.local_route
      → GoesPrepared (parse_parser granted item c w p s)
  unfolding parse_parser
  parse_parser-GoesPrepared granted item c w none s h = tt
  parse_parser-GoesPrepared granted item c w (some p) s h =
      parse_item-GoesPrepared c w item p (arrayparse_cstring granted s)
        (arrayparse_cstring-Counted granted s) h

  parse_option-GoesPrepared :
      (parsers : List (ParseConfig W)) (granted : Bool) (item : Option ℕ) (c : Config W) (w : W)
      (opt : Opt)
      → Prepared c.local_route
      → GoesPrepared (parse_option parsers granted item c w opt)
  unfolding parse_option parse_list
  parse_option-GoesPrepared parsers granted item c w option_log h = h
  parse_option-GoesPrepared parsers granted item c w option_daemon h = h
  parse_option-GoesPrepared parsers granted item c w option_help h = tt
  parse_option-GoesPrepared parsers granted item c w option_unknown h = tt
  parse_option-GoesPrepared parsers granted item c w (option_namespace s) h = h
  parse_option-GoesPrepared parsers granted item c w (option_cache s) h = h
  parse_option-GoesPrepared parsers granted item c w (option_duration s) h = h
  parse_option-GoesPrepared parsers granted item c w (option_name s) h = h
  parse_option-GoesPrepared parsers granted item c w (option_caches s) h =
      put_list-GoesPrepared c w _ (arrayparse_cstring granted s) (λ l. refl) h
  parse_option-GoesPrepared parsers granted item c w (option_prefixes s) h =
      put_list-GoesPrepared c w _ (arrayparse_cstring granted s) (λ l. refl) h
  parse_option-GoesPrepared parsers granted item c w (option_children s) h =
      put_list-GoesPrepared c w _ (arrayparse_cstring granted s) (λ l. refl) h
  parse_option-GoesPrepared parsers granted item c w (option_parents s) h =
      put_list-GoesPrepared c w _ (arrayparse_cstring granted s) (λ l. refl) h
  parse_option-GoesPrepared parsers granted item c w (option_parser i s) h =
      parse_parser-GoesPrepared granted item c w (get_elem? parsers i) s h

  go_on-GoesPrepared :
      (rest : Config W → Parsed W) (r : Parsed W)
      → ((c : Config W) → Prepared c.local_route → GoesPrepared (rest c))
      → GoesPrepared r
      → GoesPrepared (go_on rest r)
  unfolding go_on
  go_on-GoesPrepared rest (goes c) keep h = keep c h
  go_on-GoesPrepared rest (exits n w) keep h = tt
  go_on-GoesPrepared rest faults keep h = tt

  parse_options-GoesPrepared :
      (parsers : List (ParseConfig W)) (c : Config W) (w : W) (opts : List (Opt × Bool × Option ℕ))
      → Prepared c.local_route
      → GoesPrepared (parse_options parsers c w opts)
  unfolding parse_options
  parse_options-GoesPrepared parsers c w [] h = h
  parse_options-GoesPrepared parsers c w ((opt, granted, item) ∷ opts) h =
      go_on-GoesPrepared (λ c'. parse_options parsers c' w opts) _
        (λ c' h'. parse_options-GoesPrepared parsers c' w opts h')
        (parse_option-GoesPrepared parsers granted item c w opt h)

  -- Whatever the options and their arguments, and whatever the parsers and `malloc` answer, the
  -- configuration that `propd_config_parse` returns, when the program does not end, has storages of
  -- different names, each with a prefix at least and without a reference, if the one that it was given
  -- has.
  pub propd_config_parse-Prepared :
      (made : Bool) (parsers : List (ParseConfig W)) (c c' : Config W) (w : W)
      (opts : List (Opt × Bool × Option ℕ))
      → Prepared c.local_route
      → propd_config_parse made parsers c w opts ≡ goes c'
      → Prepared c'.local_route
  unfolding propd_config_parse
  propd_config_parse-Prepared true parsers c c' w opts h e =
      subst GoesPrepared e (parse_options-GoesPrepared parsers c w opts h)
  propd_config_parse-Prepared false parsers c c' w opts h e = absurd (ground (arith, e))
