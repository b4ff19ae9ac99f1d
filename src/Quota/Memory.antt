-- ===== src/Quota/Memory.antt =====
-- A Redis server in memory: the interface of the counters can be met. Each key has a value and a
-- lifetime; SCAN finds nothing here.
use adonisjs_lasagna_saas_te.Prelude.{
  ℕ, ◌+◌, String, Option, some, none, [], refl, str_eq, if◌then◌else◌, get_or,
}
use adonisjs_lasagna_saas_te.Store.{Store}
use adonisjs_lasagna_saas_te.Quota.{RedisServer}

abbrev Keys : Type 0
Keys = String → Option ℕ

abbrev set : String → Option ℕ → Keys → Keys
set k v s j = if str_eq k j then v else s j

-- Values and lifetimes; a new value has no lifetime.
abbrev keys_memory : Store ℕ
keys_memory = record {
  State = Keys × Keys;
  get = λ k s. s.0 k;
  put = λ k v s. (set k (some v) s.0, set k none s.1);
  del = λ k s. (set k none s.0, set k none s.1);
  get-put = λ j k v s. refl;
  get-del = λ j k s. refl;
}

abbrev pub redis_memory : RedisServer
redis_memory = record {
  keyspace = keys_memory;
  incrby = λ k n s. let next = get_or (s.0 k) 0 + n in (next, (set k (some next) s.0, s.1));
  expire = λ k n s. (s.0, set k (some n) s.1);
  ttl = λ k s. s.1 k;
  scan = λ pattern s. [];
  incrby-reply = λ k n s. refl;
  get-incrby = λ j k n s. refl;
  get-expire = λ j k n s. refl;
  ttl-expire = λ j k n s. refl;
}
