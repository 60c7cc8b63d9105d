-- ===== src/Tests/ProgramTests.antt =====
-- The theorems on the options and the processes of the program, on its pool and on its registers.
use propd.Prelude.{
  ◌↔◌, ◌≢◌, ℕ, ◌≡◌, refl, inr, Text, codes, true, List, [], ◌∷◌, Option, none, some, ok, Reply,
  einval, length, arith, pos, get_elem?, ◌>>=◌,
}
use propd.Storage.{Storage}
use propd.Route.{Item}
use propd.Infra.Resources.{Holds}
use propd.Infra.TaskQueue.Lifecycle.{
  CreateEnv, thread_pool_create, thread_pool_destroy, thread_pool_destroy-create,
}
use propd.Value.Numerals.{digit_of}
use propd.Misc.Array.{arraydup_cstring, count_fields, fields}
use propd.Memio.{Pos, pos_read, pos_search}
use propd.Memio.Writing.{pos_write}
use propd.Memio.Writing.Region.{padded, pos_read-pos_write}
use propd.Memio.Layout.{JsonPos, layout_parse, end_mark}
use propd.Memio.Layout.Objects.{Reads, pos_search-layout_parse}
use propd.Propd.{Config, propd_config_default}
use propd.Propd.Options.{ParseConfig, option_parser, goes, propd_config_parse}
use propd.Propd.Options.Table.{Prepared, propd_config_parse-Prepared}
use propd.Propd.Namespace.{io_path, ctrl_path, io_path-ctrl_path}
use propd.Tests.Data.{Cell, cell}

-- The second thread cannot be made.
abbrev one_thread : CreateEnv
one_thread = record {
  pool_granted = true;
  threads_granted = true;
  queue_granted = true;
  cells_granted = true;
  thread = λ i. get_elem? (none ∷ some einval ∷ []) i >>= λ e. e;
}

abbrev holds : Holds
holds = record { blocks = 2; sockets = 0; paths = 0; threads = 1 }

thread_pool_destroy-create_example :
    thread_pool_destroy
      (thread_pool_create one_thread 3 3 holds).0
      (thread_pool_create one_thread 3 3 holds).1
    ≡ holds
thread_pool_destroy-create_example = thread_pool_destroy-create one_thread 3 3 holds (omega arith)

abbrev serial : Pos
serial = record { key = 0; name = codes "serial"; offset = 1; length = 6; mask = 0 }

abbrev flag : Pos
flag = record { key = 1; name = codes "flag"; offset = 7; length = 1; mask = 0xf }

abbrev registers : List ℕ
registers = 1 ∷ 2 ∷ 3 ∷ 4 ∷ 5 ∷ 6 ∷ 7 ∷ 8 ∷ []

pos_read-pos_write_example :
    (memory' : List ℕ) × (pos_write serial registers (9 ∷ 9 ∷ []) ≡ ok memory')
    × (pos_read serial memory' [] ≡ ok (padded serial (9 ∷ 9 ∷ [])))
    × (length memory' ≡ 8)
    × (pos_read flag memory' [] ≡ pos_read flag registers [])
pos_read-pos_write_example =
    pos_read-pos_write serial flag registers (9 ∷ 9 ∷ []) [] (omega arith) (omega arith)
      (omega arith) (inr (omega arith))

abbrev text_field : Text → Option (Option Text)
text_field s = some (some s)

abbrev json_flag : JsonPos
json_flag = record {
  name = text_field (codes "flag");
  offset = text_field (codes "0x7");
  length = text_field (codes "1");
  mask = text_field (codes "017");
}

abbrev read_flag : Pos
read_flag = record { key = 0; name = codes "flag"; offset = 7; length = 1; mask = 15 }

flag_parsed :
    layout_parse true (λ i. true) (some (some (json_flag ∷ [])))
    ≡ ok (some (read_flag ∷ end_mark ∷ []))
unfolding layout_parse digit_of
flag_parsed = refl

pos_search-layout_parse_example :
    (j : JsonPos) × (p : Pos) × (get_elem? (json_flag ∷ []) 0 ≡ some j)
    × (pos_search (read_flag ∷ end_mark ∷ []) 0 ≡ some p)
    × Reads j p
pos_search-layout_parse_example =
    pos_search-layout_parse true (λ i. true) (json_flag ∷ []) (read_flag ∷ end_mark ∷ []) 0
      flag_parsed (omega arith) (omega arith)

abbrev make_cell : Text → List Text → Reply (Storage Cell)
make_cell name args = ok (record cell { name = name })

abbrev cells : ParseConfig Cell
cells = record { name = codes "cell"; arg_num = 0; parse = make_cell }

abbrev led_item : Item Cell
led_item = record {
  addr = 5;
  storage = record cell { name = codes "led" };
  prefix = codes "dev.*" ∷ [];
  nref = pos 0;
}

abbrev default_config : Config Cell
default_config = propd_config_default

option_parsed :
    propd_config_parse true
      (cells ∷ [])
      default_config
      none
      ((option_parser 0 (codes "led,dev.*"), true, some 5) ∷ [])
    ≡ goes (record default_config { local_route = led_item ∷ [] })
unfolding propd_config_parse arraydup_cstring count_fields fields propd_config_default
option_parsed = refl

nothing_yet : Prepared default_config.local_route
unfolding propd_config_default
nothing_yet = record { unique = tt; ready = tt }

propd_config_parse-Prepared_example : Prepared (led_item ∷ [])
propd_config_parse-Prepared_example =
    propd_config_parse-Prepared true (cells ∷ []) default_config
      (record default_config { local_route = led_item ∷ [] }) none
      ((option_parser 0 (codes "led,dev.*"), true, some 5) ∷ []) nothing_yet option_parsed

io_path-ctrl_path_example :
    ((io_path (codes "/tmp") (codes "root") ≡ io_path (codes "/tmp") (codes "kid"))
      ↔ (codes "root" ≡ codes "kid"))
    × ((ctrl_path (codes "/tmp") (codes "root") ≡ ctrl_path (codes "/tmp") (codes "kid"))
        ↔ (codes "root" ≡ codes "kid"))
    × (io_path (codes "/tmp") (codes "root") ≢ ctrl_path (codes "/tmp") (codes "kid"))
io_path-ctrl_path_example =
    io_path-ctrl_path (codes "/tmp") (codes "root") (codes "kid") (omega arith) (omega arith)
