-- ===== src/RateLimit/Samples.antt =====
-- Counters that a function holds, with Redis or without.
use ctf_plugin_docker_per_te.Prelude.{
  suc, ◌+◌, ◌*◌, refl, String, Bool, ◌==◌, Option, none, some, if◌then◌else◌,
}
use ctf_plugin_docker_per_te.RateLimit.{
  Counter, live, count_of, count_in, deadline_of, with_deadline, Backend, IsRedis, IsCache,
}

abbrev pub Table : Type 0
Table = String → Option Counter

abbrev pub stored : String → Option Counter → Table → Table
stored key counter table = λ other. if key == other then counter else table other

abbrev pub no_counters : Table
no_counters = λ key. none

abbrev pub tables : Bool → Backend Table
tables has_redis = record {
  has_redis = has_redis;
  key_prefix = "ctfd:";
  incr = λ key now s. (
    suc (count_of (live now (s key))),
    stored key (some (suc (count_of (live now (s key))), deadline_of (live now (s key)))) s,
  );
  expire =
      λ key seconds now s. stored key (with_deadline (now + 1000 * seconds) (live now (s key))) s;
  cache_get = λ key now s. count_in (live now (s key));
  cache_set = λ key n seconds now s. stored key (some (n, some (now + 1000 * seconds))) s;
  entry = λ s key. s key;
}

pub tables-IsRedis : (has_redis : Bool) → IsRedis (tables has_redis)
tables-IsRedis has_redis = record {
  incr_count = λ key now s. refl;
  entry-incr = λ key now s other. refl;
  entry-expire = λ key seconds now s other. refl;
}

pub tables-IsCache : (has_redis : Bool) → IsCache (tables has_redis)
tables-IsCache has_redis = record {
  cache_get_lem = λ key now s. refl;
  entry-cache_set = λ key n seconds now s other. refl;
}
