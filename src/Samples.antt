-- ===== src/Samples.antt =====
-- Concrete inputs for the tests: an environment in which nothing fails, hashing and canonicalization
-- return their input, every value encodes to one text and every text decodes to an empty map.
use trajectory_irmrd.Base.{false, some, [], str, Str, pos, obj, end, Env}
use trajectory_irmrd.Log.{Db}

abbrev pub calm : Env
calm = record {
  marshal = λ v. some (str "{}");
  marshal_indent = λ v. some (str "{}");
  unmarshal = λ s. some (obj end);
  transform = λ s. some s;
  sha256_hex = λ s. s;
  float_to_int = λ n. pos n;
  now = λ n. n;
  sql_fails = λ n. false;
  io_fails = λ n. false;
}

abbrev pub empty_db : Db
empty_db = record { rows = []; clock = 0 }

abbrev pub run_id : Str
run_id = str "run"

abbrev pub tenant : Str
tenant = str "acme"
