-- ===== src/Database/Examples.antt =====
-- The key of a record.
use distributed_llama.Base.{◌≡◌, arith, ok}
use distributed_llama.Database.Keys.{build_key, parse_key, parse_key-build_key}

parse_key-build_key_example : parse_key (build_key 703710 3) ≡ ok (703710, 3)
parse_key-build_key_example = parse_key-build_key 703710 3 (omega arith) (omega arith)
