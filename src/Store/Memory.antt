-- ===== src/Store/Memory.antt =====
-- A store in memory, as functions from keys: the interface of a keyed store can be met.
use adonisjs_lasagna_saas_te.Prelude.{String, Option, none, some, refl, str_eq, if◌then◌else◌}
use adonisjs_lasagna_saas_te.Store.{Store}

abbrev pub memory : (V : Type 0) → Store V
memory V = record {
  State = String → Option V;
  get = λ k s. s k;
  put = λ k v s j. if str_eq k j then some v else s j;
  del = λ k s j. if str_eq k j then none else s j;
  get-put = λ j k v s. refl;
  get-del = λ j k s. refl;
}

abbrev pub nothing : {V : Type 0} → String → Option V
nothing k = none
