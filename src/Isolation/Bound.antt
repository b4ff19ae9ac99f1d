-- ===== src/Isolation/Bound.antt =====
-- The LRU map and the connections of the manager in the drivers of src/services/isolation.
use adonisjs_lasagna_saas_te.Prelude.{
  suc, ◌-◌, ◌≤◌, ◌≡◌, refl, sym, ap, ◌∙◌, inl, inr, String, true, false, none, List, [], ◌∷◌, ◌++◌,
  if◌then◌else◌, leb, length, length-append, lookup, is_some, str_eq, All, All-append, arith,
  Bool-cases, Option-cases,
}
use adonisjs_lasagna_saas_te.Isolation.Connections.{
  max_tenant_connections, Connection, Pool, Manager, touch, evict_oldest, evict_if_needed,
  add_connection, connect_named, release, disconnect_named,
}
use adonisjs_lasagna_saas_te.Isolation.Names.{
  count, count-append, count-remove_name, count_self, count-touched, length-remove_entry,
  length-remove_name, length-touched, names, names-append, names-remove_entry, registered-count,
  remove_name-absent, routed-remove_entry, unregistered-count,
}

-- The names of the LRU map are those of the manager, no more than the bound, and each connection
-- works on what its name says.
pub record IsPool (route : String → String) (p : Pool) : Type 0 where
  pub same : (k : String) → count k (names p.manager) ≡ count k p.lru
  pub sized : length p.manager ≡ length p.lru
  pub bounded : length p.lru ≤ max_tenant_connections
  pub routed : All (λ e. e.1.target ≡ route e.0) p.manager

module _ (route : String → String) where
  touch-IsPool :
      (name : String) (p : Pool)
      → is_some (lookup name p.manager) ≡ true
      → IsPool route p
      → IsPool route (touch name p)
  unfolding touch
  touch-IsPool name p h v =
      let here : 1 ≤ count name p.lru =
        omega (arith, v.same name, registered-count name p.manager h) in
      record {
        same = λ k. v.same k ∙ sym (count-touched k name p.lru here);
        sized = v.sized ∙ sym (length-touched name p.lru here);
        bounded = omega (arith, v.bounded, length-touched name p.lru here);
        routed = v.routed;
      }

  -- What a pool is when one name more than the bound may be in it.
  record IsFull (p : Pool) : Type 0 where
    same : (k : String) → count k (names p.manager) ≡ count k p.lru
    sized : length p.manager ≡ length p.lru
    bounded : length p.lru ≤ suc max_tenant_connections
    routed : All (λ e. e.1.target ≡ route e.0) p.manager

  added-IsFull :
      (name settings : String) (p : Pool)
      → is_some (lookup name p.manager) ≡ false
      → IsPool route p
      → IsFull (
          touch name (record p {
            manager =
                p.manager ++ ((name, record { settings = settings; target = route name }) ∷ []);
          }))
  unfolding touch
  added-IsFull name settings p h v =
      let entry : String × Connection =
        (name, record { settings = settings; target = route name }) in
      let absent : count name p.lru ≡ 0 =
        omega (arith, v.same name, unregistered-count name p.manager h) in
      rw (remove_name-absent name p.lru absent) (record {
        same = λ k.
            ap (count k) (names-append p.manager (entry ∷ []))
            ∙ omega (
              arith,
              v.same k,
              count-append k (names p.manager) (name ∷ []),
              count-append k p.lru (name ∷ []),
            );
        sized =
            omega (
              arith,
              v.sized,
              length-append p.manager (entry ∷ []),
              length-append p.lru (name ∷ []),
            );
        bounded = omega (arith, v.bounded, length-append p.lru (name ∷ []));
        routed =
            All-append (λ e. e.1.target ≡ route e.0) p.manager (entry ∷ []) v.routed (refl, tt);
      })

  release_quietly-IsPool :
      (N : Manager) (p : Pool) (oldest : String) (rest : List String)
      → N.release_error oldest ≡ none
      → p.lru ≡ oldest ∷ rest
      → IsFull p
      → IsPool route (evict_oldest N (oldest ∷ rest) p)
  release_quietly-IsPool N p oldest rest released e v =
      rw (evict_oldest, released)
        (record {
          same = λ k.
              ap (count k) (names-remove_entry oldest p.manager)
              ∙ count-remove_name k oldest (names p.manager)
              ∙ omega (arith, v.same k, ap (count k) e);
          sized =
              let there : 1 ≤ count oldest (names p.manager) =
                omega (arith, v.same oldest, ap (count oldest) e, count_self oldest rest) in
              ground (arith, there, length-remove_entry oldest p.manager, v.sized, ap length e);
          bounded = omega (arith, v.bounded, ap length e);
          routed = routed-remove_entry (λ e. e.1.target ≡ route e.0) oldest p.manager v.routed;
        })

  evict_if_needed-IsPool :
      (N : Manager) (p : Pool)
      → ((name : String) → N.release_error name ≡ none)
      → IsFull p
      → IsPool route (evict_if_needed N p)
  unfolding evict_if_needed
  evict_if_needed-IsPool N p released v =
      elim (Bool-cases (leb (length p.lru) max_tenant_connections)) [
        | inl e ↦
            rw (evict_if_needed, e)
              (record {
                same = v.same;
                sized = v.sized;
                bounded = ground (arith, e);
                routed = v.routed;
              })
        | inr e ↦ rw (evict_if_needed, e) (evicted p.lru refl)
      ]
    where
      evicted : (names' : List String) → p.lru ≡ names' → IsPool route (evict_oldest N names' p)
      evicted [] e = record {
        same = v.same;
        sized = v.sized;
        bounded = omega (arith, ap length e);
        routed = v.routed;
      }
      evicted (oldest ∷ rest) e = release_quietly-IsPool N p oldest rest (released oldest) e v

  pub connect_named-IsPool :
      (N : Manager) (name : String) (p : Pool)
      → ((n : String) → N.release_error n ≡ none)
      → IsPool route p
      → IsPool route (connect_named N name (route name) p).1
  unfolding connect_named
  connect_named-IsPool N name p released v = elim (Bool-cases (is_some (lookup name p.manager))) [
    | inl e ↦ rw (connect_named, e) (touch-IsPool name p e v)
    | inr e ↦
        rw (connect_named, e)
          (elim (Option-cases N.template) [
            | inl none_e ↦ rw (add_connection, none_e) v
            | inr (settings, some_e) ↦
                rw (add_connection, some_e)
                  (evict_if_needed-IsPool N _ released (added-IsFull name settings p e v))
          ])
  ]

  pub disconnect_named-IsPool :
      (N : Manager) (name : String) (p : Pool)
      → ((n : String) → N.release_error n ≡ none)
      → IsPool route p
      → IsPool route (disconnect_named N name p).1
  unfolding disconnect_named
  disconnect_named-IsPool N name p released v =
      elim (Bool-cases (is_some (lookup name p.manager))) [
        | inl e ↦
            rw (disconnect_named, e, release, released name)
              (record {
                same = λ k.
                    ap (count k) (names-remove_entry name p.manager)
                    ∙ count-remove_name k name (names p.manager)
                    ∙ ap (λ n. n - (if str_eq name k then 1 else 0)) (v.same k)
                    ∙ sym (count-remove_name k name p.lru);
                sized =
                    length-remove_entry name p.manager
                    ∙ ap (λ l. l - (if leb 1 (count name (names p.manager)) then 1 else 0)) v.sized
                    ∙ ap (λ n. length p.lru - (if leb 1 n then 1 else 0)) (v.same name)
                    ∙ sym (length-remove_name name p.lru);
                bounded = ground (arith, length-remove_name name p.lru, v.bounded);
                routed = routed-remove_entry (λ e. e.1.target ≡ route e.0) name p.manager v.routed;
              })
        | inr e ↦
            let absent : count name p.lru ≡ 0 =
              omega (arith, v.same name, unregistered-count name p.manager e) in
            rw (disconnect_named, e) (rw (remove_name-absent name p.lru absent) v)
      ]
