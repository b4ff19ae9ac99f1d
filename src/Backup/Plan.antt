-- ===== src/Backup/Plan.antt =====
-- What the retention of src/services/backup_retention_service.ts keeps, and when a backup is due.
use mathlib.Core.List.{Perm}
use mathlib.Core.List.Perm
use adonisjs_lasagna_saas_te.Prelude.{
  ℕ, zero, suc, ◌+◌, ◌*◌, ◌≤◌, ◌≡◌, ◌⊎◌, inl, inr, refl, sym, ap, ◌∙◌, subst, Bool, true, false,
  Option, none, some, List, [], ◌∷◌, ◌++◌, take, drop, length, leb, All, All-mono, arith,
  Bool-cases, Option-cases, get_or, is_some, all, ◌&&◌,
}
use adonisjs_lasagna_saas_te.Backup.{BackupMetadata}
use adonisjs_lasagna_saas_te.Backup.Retention.{
  later, BackupRetentionTier, is_newer, insert_by_age, sort_by_age, plan_of, latest, is_due,
}

insert_by_age-perm :
    (m : BackupMetadata) (ms : List BackupMetadata) → Perm (insert_by_age m ms) (m ∷ ms)
unfolding insert_by_age
insert_by_age-perm m [] = Perm.rfl
insert_by_age-perm m (n ∷ ns) = elim (Bool-cases (is_newer n m)) [
  | inl e ↦
      rw (e, insert_by_age) (Perm.trans (Perm.cons n (insert_by_age-perm m ns)) (Perm.swap m n ns))
  | inr e ↦ rw (e, insert_by_age) Perm.rfl
]

pub sort_by_age-perm : (ms : List BackupMetadata) → Perm (sort_by_age ms) ms
unfolding sort_by_age
sort_by_age-perm [] = Perm.rfl
sort_by_age-perm (m ∷ ms) =
    Perm.trans (insert_by_age-perm m (sort_by_age ms)) (Perm.cons m (sort_by_age-perm ms))

pub take-drop {ℓ} : {A : Type ℓ} (n : ℕ) (xs : List A) → take n xs ++ drop n xs ≡ xs
take-drop zero xs = refl
take-drop (suc n) [] = refl
take-drop (suc n) (x ∷ xs) = ap (◌∷◌ x) (take-drop n xs)

pub take-le : {A : Type 0} (n : ℕ) (xs : List A) → length (take n xs) ≤ n
take-le zero xs = omega arith
take-le (suc n) [] = omega arith
take-le (suc n) (x ∷ xs) = omega (arith, take-le n xs)

take-all : {A : Type 0} (n : ℕ) (xs : List A) → (length (take n xs) ≡ n) ⊎ (drop n xs ≡ [])
take-all zero xs = inl refl
take-all (suc n) [] = inr refl
take-all (suc n) (x ∷ xs) = elim (take-all n xs) [ inl e ↦ inl (omega (arith, e)) | inr e ↦ inr e ]

abbrev pub instant : BackupMetadata → ℕ
instant m = get_or m.timestamp 0

abbrev pub IsDated : BackupMetadata → Type 0
IsDated m = is_some m.timestamp ≡ true

abbrev IsSorted : List BackupMetadata → Type 0
IsSorted [] = Unit
IsSorted (m ∷ ms) = All (λ (n : BackupMetadata). instant n ≤ instant m) ms × IsSorted ms

insert_by_age-All :
    (P : BackupMetadata → Type 0) (m : BackupMetadata) (ms : List BackupMetadata)
    → P m
    → All P ms
    → All P (insert_by_age m ms)
unfolding insert_by_age
insert_by_age-All P m [] h hs = (h, tt)
insert_by_age-All P m (n ∷ ns) h hs = elim (Bool-cases (is_newer n m)) [
  | inl e ↦ rw (e, insert_by_age) (hs.0, insert_by_age-All P m ns h hs.1)
  | inr e ↦ rw (e, insert_by_age) (h, hs)
]

pub sort_by_age-All :
    (P : BackupMetadata → Type 0) (ms : List BackupMetadata) → All P ms → All P (sort_by_age ms)
unfolding sort_by_age
sort_by_age-All P [] hs = tt
sort_by_age-All P (m ∷ ms) hs =
    insert_by_age-All P m (sort_by_age ms) hs.0 (sort_by_age-All P ms hs.1)

newer-le : (n m : BackupMetadata) → is_newer n m ≡ true → instant m ≤ instant n
newer-le n m e = ground arith

not_newer-le :
    (n m : BackupMetadata) → IsDated n → IsDated m → is_newer n m ≡ false → instant n ≤ instant m
not_newer-le n m dn dm e = ground arith

insert_by_age-IsSorted :
    (m : BackupMetadata) (ms : List BackupMetadata)
    → IsDated m
    → All IsDated ms
    → IsSorted ms
    → IsSorted (insert_by_age m ms)
unfolding insert_by_age
insert_by_age-IsSorted m [] d ds s = (tt, tt)
insert_by_age-IsSorted m (n ∷ ns) d ds s = elim (Bool-cases (is_newer n m)) [
  | inl e ↦
      rw (e, insert_by_age)
        (
          insert_by_age-All (λ (x : BackupMetadata). instant x ≤ instant n) m ns (newer-le n m e)
              s.0,
          insert_by_age-IsSorted m ns d ds.1 s.1,
        )
  | inr e ↦
      let below : instant n ≤ instant m = not_newer-le n m ds.0 d e in
      rw (e, insert_by_age)
        (
          (
            below,
            All-mono ns (λ (x : BackupMetadata) (h : instant x ≤ instant n). omega arith) s.0,
          ),
          s,
        )
]

sort_by_age-IsSorted : (ms : List BackupMetadata) → All IsDated ms → IsSorted (sort_by_age ms)
unfolding sort_by_age
sort_by_age-IsSorted [] ds = tt
sort_by_age-IsSorted (m ∷ ms) ds =
    insert_by_age-IsSorted m (sort_by_age ms) ds.0 (sort_by_age-All IsDated ms ds.1)
      (sort_by_age-IsSorted ms ds.1)

All-right :
    (P : BackupMetadata → Type 0) (xs ys : List BackupMetadata) → All P (xs ++ ys) → All P ys
All-right P [] ys h = h
All-right P (x ∷ xs) ys h = All-right P xs ys h.1

-- Of a sorted list, all of a front part is as recent as all of the rest.
sorted-split :
    (xs ys : List BackupMetadata)
    → IsSorted (xs ++ ys)
    → All (λ (x : BackupMetadata). All (λ (y : BackupMetadata). instant y ≤ instant x) ys) xs
sorted-split [] ys s = tt
sorted-split (x ∷ xs) ys s =
    (All-right (λ (y : BackupMetadata). instant y ≤ instant x) xs ys s.0, sorted-split xs ys s.1)

-- A plan for backups with valid timestamps keeps and purges each of them, as often as it is listed;
-- it keeps as many as `keepLast` says, or all, and none that it purges is later than one it keeps.
pub plan_of-newest :
    (tier : BackupRetentionTier) (list : List BackupMetadata)
    → All IsDated list
    → let plan = plan_of tier list in
      Perm (plan.kept ++ plan.purged) list
      × (length plan.kept ≤ tier.keep_last)
      × ((length plan.kept ≡ tier.keep_last) ⊎ (plan.purged ≡ []))
      × All
          (λ (x : BackupMetadata). All (λ (y : BackupMetadata). instant y ≤ instant x) plan.purged)
          plan.kept
unfolding plan_of
plan_of-newest tier list dated =
    let sorted : List BackupMetadata = sort_by_age list in
    let whole : take tier.keep_last sorted ++ drop tier.keep_last sorted ≡ sorted =
      take-drop tier.keep_last sorted in
    (
      rw whole (sort_by_age-perm list),
      take-le tier.keep_last sorted,
      take-all tier.keep_last sorted,
      sorted-split (take tier.keep_last sorted) (drop tier.keep_last sorted)
          (subst IsSorted (sym whole) (sort_by_age-IsSorted list dated)),
    )

-- A backup that is no obstacle to a new one: its timestamp is no date, or it is old enough.
abbrev pub is_past : ℕ → ℕ → Option ℕ → Bool
is_past width now none = true
is_past width now (some t) = leb (t + width) now

is_past-later :
    (width now : ℕ) (a b : Option ℕ)
    → is_past width now (later a b) ≡ (is_past width now a && is_past width now b)
is_past-later width now none b = refl
is_past-later width now (some a) none = ground arith
is_past-later width now (some a) (some b) = ground arith

is_past-latest :
    (width now : ℕ) (list : List BackupMetadata)
    → is_past width now (latest list) ≡ all (λ m. is_past width now m.timestamp) list
unfolding latest
is_past-latest width now [] = refl
is_past-latest width now (m ∷ ms) =
    rw (is_past-later width now m.timestamp (latest ms)) (rw (is_past-latest width now ms) refl)

is_due-is_past :
    (tier : BackupRetentionTier) (now : ℕ) (list : List BackupMetadata)
    → is_due tier now list ≡ is_past (tier.interval_hours * 3600000) now (latest list)
unfolding is_due
is_due-is_past tier now list = elim (Option-cases (latest list)) [
  | inl e ↦ simp (is_due, e)
  | inr (t, e) ↦ simp (is_due, e)
]

-- A backup is due exactly where each one on the list has an invalid timestamp or is older than the
-- tier's interval.
pub is_due-all :
    (tier : BackupRetentionTier) (now : ℕ) (list : List BackupMetadata)
    → is_due tier now list ≡ all (λ m. is_past (tier.interval_hours * 3600000) now m.timestamp) list
unfolding is_due latest
is_due-all tier now list =
    is_due-is_past tier now list ∙ is_past-latest (tier.interval_hours * 3600000) now list
