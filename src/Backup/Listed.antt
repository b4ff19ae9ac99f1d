-- ===== src/Backup/Listed.antt =====
-- Lists of backups by their files, as src/services/backup_retention_service.ts purges them.
use adonisjs_lasagna_saas_te.Prelude.{
  ℕ, zero, suc, ◌+◌, ◌≤◌, ◌≡◌, refl, sym, ap, Bool, true, false, not, ◌&&◌, ◌||◌, List, [], ◌∷◌,
  str_eq, ◌++◌, take, drop, filter, length, All, All-mono, arith, eq_refl,
}
use adonisjs_lasagna_saas_te.Backup.{BackupMetadata, is_file_name}
use adonisjs_lasagna_saas_te.Backup.Retention.{
  insert_by_age, sort_by_age, BackupRetentionTier, plan_of,
}
use adonisjs_lasagna_saas_te.Backup.Plan.{take-drop, take-le, sort_by_age-All}

abbrev pub is_listed : List BackupMetadata → BackupMetadata → Bool
is_listed [] m = false
is_listed (p ∷ ps) m = str_eq m.file p.file || is_listed ps m

pub filter-filter :
    (p q r : BackupMetadata → Bool) (list : List BackupMetadata)
    → ((m : BackupMetadata) → (q m && p m) ≡ r m)
    → filter p (filter q list) ≡ filter r list
filter-filter p q r [] h = refl
filter-filter p q r (m ∷ ms) h = rw (sym (h m)) (ground (arith, filter-filter p q r ms h))

pub filter-true : (list : List BackupMetadata) → filter (λ m. true) list ≡ list
filter-true [] = refl
filter-true (m ∷ ms) = ap (◌∷◌ m) (filter-true ms)

pub and_not : (a b : Bool) → (not a && not b) ≡ not (a || b)
and_not true b = refl
and_not false b = refl

-- How many of a list are kept does not depend on its order.
filter-insert_by_age :
    (p : BackupMetadata → Bool) (m : BackupMetadata) (ms : List BackupMetadata)
    → length (filter p (insert_by_age m ms)) ≡ length (filter p (m ∷ ms))
unfolding insert_by_age
filter-insert_by_age p m [] = refl
filter-insert_by_age p m (n ∷ ns) = ground (arith, filter-insert_by_age p m ns)

filter-sort_by_age :
    (p : BackupMetadata → Bool) (ms : List BackupMetadata)
    → length (filter p (sort_by_age ms)) ≡ length (filter p ms)
unfolding sort_by_age
filter-sort_by_age p [] = refl
filter-sort_by_age p (m ∷ ms) =
    ground (arith, filter-insert_by_age p m (sort_by_age ms), filter-sort_by_age p ms)

length-filter_le :
    (p : BackupMetadata → Bool) (ms : List BackupMetadata) → length (filter p ms) ≤ length ms
length-filter_le p [] = omega arith
length-filter_le p (m ∷ ms) = ground (arith, length-filter_le p ms)

filter-append :
    (p : BackupMetadata → Bool) (xs ys : List BackupMetadata)
    → length (filter p (xs ++ ys)) ≡ length (filter p xs) + length (filter p ys)
filter-append p [] ys = omega arith
filter-append p (x ∷ xs) ys = ground (arith, filter-append p xs ys)

-- None of a list is off that list.
filter-listed :
    (all ms : List BackupMetadata)
    → All (λ (m : BackupMetadata). is_listed all m ≡ true) ms
    → length (filter (λ m. not (is_listed all m)) ms) ≡ 0
filter-listed all [] h = refl
filter-listed all (m ∷ ms) h = rw h.0 (filter-listed all ms h.1)

is_listed-cons :
    (m : BackupMetadata) (ms : List BackupMetadata) (x : BackupMetadata)
    → is_listed ms x ≡ true
    → is_listed (m ∷ ms) x ≡ true
is_listed-cons m ms x h = ground (arith, h)

is_listed_self : (ms : List BackupMetadata) → All (λ (m : BackupMetadata). is_listed ms m ≡ true) ms
is_listed_self [] = tt
is_listed_self (m ∷ ms) = (
  rw (eq_refl m.file) refl,
  All-mono ms (λ (x : BackupMetadata) (h : is_listed ms x ≡ true). is_listed-cons m ms x h)
      (is_listed_self ms),
)

All-drop :
    (P : BackupMetadata → Type 0) (n : ℕ) (ms : List BackupMetadata) → All P ms → All P (drop n ms)
All-drop P zero ms h = h
All-drop P (suc n) [] h = tt
All-drop P (suc n) (m ∷ ms) h = All-drop P n ms h.1

pub plan_of-All :
    (tier : BackupRetentionTier) (list : List BackupMetadata)
    → All (λ (m : BackupMetadata). is_file_name m.file ≡ true) list
    → All (λ (m : BackupMetadata). is_file_name m.file ≡ true) (plan_of tier list).purged
unfolding plan_of
plan_of-All tier list h =
    All-drop (λ (m : BackupMetadata). is_file_name m.file ≡ true) tier.keep_last (sort_by_age list)
      (sort_by_age-All (λ (m : BackupMetadata). is_file_name m.file ≡ true) list h)

pub plan_of-le :
    (tier : BackupRetentionTier) (list : List BackupMetadata)
    → length (filter (λ m. not (is_listed (plan_of tier list).purged m)) list) ≤ tier.keep_last
unfolding plan_of
plan_of-le tier list =
    let sorted : List BackupMetadata = sort_by_age list in
    let kept : List BackupMetadata = take tier.keep_last sorted in
    let purged : List BackupMetadata = drop tier.keep_last sorted in
    let p : BackupMetadata → Bool = λ m. not (is_listed purged m) in
    let whole : length (filter p (kept ++ purged)) ≡ length (filter p sorted) =
      ap (λ ms. length (filter p ms)) (take-drop tier.keep_last sorted) in
    omega (
      arith,
      whole,
      filter-append p kept purged,
      filter-listed purged purged (is_listed_self purged),
      filter-sort_by_age p list,
      length-filter_le p kept,
      take-le tier.keep_last sorted,
    )
