-- ===== src/Store/History.antt =====
-- packages/plugin-rest-cache/server/src/services/cacheStore.ts: the purge log against a full history.
use mathlib.Core.List.{reverse, reverse-append, reverse-reverse, reverse-cons}
use plugin_rest_cache.Prelude.{
  ℕ, zero, suc, ◌+◌, ◌-◌, ◌≤◌, ◌<◌, ◌≡◌, refl, sym, ap, ◌∙◌, inl, inr, true, List, [], ◌∷◌, ◌++◌,
  arith, ltb, leb, ◌==◌, if◌then◌else◌, ltb→lt, Bool-cases, length, take, any, length-append, Text,
}
use plugin_rest_cache.Store.Log.{
  Patterns, Purge, Purges, no_purges, purge_log_size, trim, record_purge_in, record_purge, covers,
  scan, forgot, purged_since,
}

-- The state after a history of purges, newest first.
abbrev pub purges_in : ℕ → List Patterns → Purges
purges_in size [] = no_purges
purges_in size (r ∷ h) = record_purge_in size r (purges_in size h)

-- The entries that a log without a limit would hold, newest first.
abbrev numbered : List Patterns → List Purge
numbered [] = []
numbered (r ∷ h) = record { generation = length h + 1; reg_exps = r } ∷ numbered h

take-nil {ℓ} : {A : Type ℓ} (n : ℕ) → take {A = A} n [] ≡ []
take-nil zero = refl
take-nil (suc n) = refl

take_short {ℓ} :
    {A : Type ℓ} (n : ℕ) (xs : List A) → length (take (suc n) xs) ≤ n → take (suc n) xs ≡ take n xs
take_short n [] h = sym (take-nil n)
take_short zero (x ∷ xs) h = absurd (omega arith)
take_short (suc n) (x ∷ xs) h = ap (◌∷◌ x) (take_short n xs (omega arith))

take_full {ℓ} :
    {A : Type ℓ} (n : ℕ) (xs : List A)
    → n < length (take (suc n) xs)
    → (a : A) × (take (suc n) xs ≡ take n xs ++ a ∷ [])
take_full n [] h = absurd (omega arith)
take_full zero (x ∷ xs) h = (x, refl)
take_full (suc n) (x ∷ xs) h = let (a, e) = take_full n xs (omega arith) in (a, ap (◌∷◌ x) e)

length-reverse {ℓ} : {A : Type ℓ} (xs : List A) → length (reverse xs) ≡ length xs
length-reverse [] = refl
length-reverse (x ∷ xs) =
    rw (reverse-cons x xs) (omega (arith, length-append (reverse xs) (x ∷ []), length-reverse xs))

reverse-snoc {ℓ} : {A : Type ℓ} (xs : List A) (a : A) → reverse (xs ++ a ∷ []) ≡ a ∷ reverse xs
reverse-snoc xs a = reverse-append xs (a ∷ [])

-- Adding an entry to a log that holds the newest ones keeps the newest ones.
trim-newest :
    (n : ℕ) (e : Purge) (xs : List Purge)
    → trim (suc n) (reverse (take (suc n) xs) ++ e ∷ []) ≡ reverse (take (suc n) (e ∷ xs))
unfolding trim
trim-newest n e xs =
    let size = length-append (reverse (take (suc n) xs)) (e ∷ []) in
    let kept = length-reverse (take (suc n) xs) in
    elim (Bool-cases (ltb (suc n) (length (reverse (take (suc n) xs) ++ e ∷ [])))) [
      | inl over ↦
          let (a, full) = take_full n xs (omega (arith, ltb→lt _ _ over, size, kept)) in
          rw over (rw full (rw (reverse-snoc (take n xs) a) (sym (reverse-cons e (take n xs)))))
      | inr within ↦
          rw within (rw (take_short n xs (ground arith)) (sym (reverse-cons e (take n xs))))
    ]

purge_log_lem :
    (n : ℕ) (h : List Patterns)
    → ((purges_in (suc n) h).generation ≡ length h)
      × ((purges_in (suc n) h).purge_log ≡ reverse (take (suc n) (numbered h)))
unfolding record_purge_in
purge_log_lem n [] = (refl, refl)
purge_log_lem n (r ∷ h) =
    let (g, l) = purge_log_lem n h in
    (
      omega (arith, g),
      rw (g, l) (trim-newest n (record { generation = length h + 1; reg_exps = r }) (numbered h)),
    )

-- The number of the oldest entry that a log of the newest ones holds.
oldest :
    (n : ℕ) (r : Patterns) (h : List Patterns)
    → (e : Purge) × (es : List Purge) × (reverse (take (suc n) (numbered (r ∷ h))) ≡ e ∷ es)
      × (e.generation ≡ suc (length h - n))
oldest n r [] =
    (record { generation = 1; reg_exps = r }, [], rw (take-nil {A = Purge} n) refl, omega arith)
oldest zero r (r' ∷ h) = (_, [], refl, omega arith)
oldest (suc n) r (r' ∷ h) =
    let (e, es, split, number) = oldest n r' h in
    let newest : Purge = record { generation = length (r' ∷ h) + 1; reg_exps = r } in
    (
      e,
      es ++ newest ∷ [],
      reverse-cons newest (take (suc n) (numbered (r' ∷ h))) ∙ ap (λ l. l ++ newest ∷ []) split,
      omega (arith, number),
    )

forgot_lem :
    (n since : ℕ) (r : Patterns) (h : List Patterns)
    → since ≤ suc (length h)
    → forgot since (reverse (take (suc n) (numbered (r ∷ h))))
      ≡ ltb (suc n) (suc (length h) - since)
unfolding forgot
forgot_lem n since r h le =
    let (e, es, split, number) = oldest n r h in rw split (ground (arith, number))

scan_lem :
    (size since : ℕ) (key : Text) (h : List Patterns)
    → since ≤ length h
    → length h - since ≤ size
    → scan since key (take size (numbered h)) ≡ any (covers key) (take (length h - since) h)
unfolding scan
scan_lem size since key [] le fits =
    rw (take-nil {A = Purge} size) (rw (take-nil {A = Patterns} (0 - since)) refl)
scan_lem zero since key (r ∷ h) le fits =
    let none_left : suc (length h) - since ≡ 0 = omega arith in rw none_left refl
scan_lem (suc n) since key (r ∷ h) le fits = elim (Bool-cases (ltb since (length h + 1))) [
  | inl newer ↦
      let one_more : suc (length h) - since ≡ suc (length h - since) = ground arith in
      rw newer
        (rw one_more (rw (scan_lem n since key h (ground arith) (ground arith)) (ground arith)))
  | inr older ↦
      let none_left : suc (length h) - since ≡ 0 = ground arith in rw older (rw none_left refl)
]

purged_since_in :
    (n since : ℕ) (key : Text) (h : List Patterns)
    → since ≤ length h
    → purged_since (purges_in (suc n) h) since key ≡ (
        if leb (length h - since) (suc n)
        then any (covers key) (take (length h - since) h)
        else true)
unfolding purged_since
purged_since_in n since key [] le = let e : since ≡ 0 = omega arith in rw e (ground arith)
purged_since_in n since key (r ∷ h) le =
    let (number, log) = purge_log_lem n (r ∷ h) in
    elim (Bool-cases (since == (purges_in (suc n) (r ∷ h)).generation)) [
      | inl same ↦
          let none_left : suc (length h) - since ≡ 0 = ground (arith, number) in
          rw same (rw none_left (ground arith))
      | inr before ↦ rw before (
          rw log (
            rw (forgot_lem n since r h le, reverse-reverse (take (suc n) (numbered (r ∷ h))))
              (elim (Bool-cases (ltb (suc n) (suc (length h) - since))) [
                | inl old ↦ rw old (ground arith)
                | inr recent ↦
                    rw recent
                      (rw (scan_lem (suc n) since key (r ∷ h) le (ground arith)) (ground arith))
              ])))
    ]

-- The state after a history of purges, newest first, starting from a new service.
abbrev pub purges : List Patterns → Purges
purges [] = no_purges
purges (r ∷ h) = record_purge r (purges h)

purges_lem : (h : List Patterns) → purges h ≡ purges_in purge_log_size h
unfolding record_purge
purges_lem [] = refl
purges_lem (r ∷ h) = ap (record_purge_in purge_log_size r) (purges_lem h)

size_lem : purge_log_size ≡ suc 999
unfolding purge_log_size
size_lem = refl

-- After a history of purges, purgedSince for a generation that was read says whether one of the
-- purges since then matches the key, if the log still holds them all, and true if it does not.
pub purged_since-purges :
    (h : List Patterns) (since : ℕ) (key : Text)
    → since ≤ length h
    → purged_since (purges h) since key ≡ (
        if leb (length h - since) purge_log_size
        then any (covers key) (take (length h - since) h)
        else true)
purged_since-purges h since key le =
    rw (purges_lem h) (rw size_lem (purged_since_in 999 since key h le))

pub generation-purges : (h : List Patterns) → (purges h).generation ≡ length h
generation-purges h = rw (purges_lem h) (rw size_lem (purge_log_lem 999 h).0)
