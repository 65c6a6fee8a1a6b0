-- ===== src/Cmd/Burnin/Retries.antt =====
-- cmd/claw64-bridge/burnin.go: what a scenario makes of the delivery retries that were counted.
-- A map is a list with each name once.
use claw.Prelude.{
  ℕ, Bool, true, false, Option, none, some, List, [], ◌∷◌, ◌++◌, ◌≡◌, ◌⊎◌, ◌↔◌, refl, ◌∙◌, subst,
  sym, arith, ◌==◌, ltb, ltb→lt, if◌then◌else◌, Bytes, codes, is_nil, same_text, join, All,
  Bool-cases, inl, inr,
}
use claw.Prelude.Text.Trims.{same_text_iff}
use claw.Relay.Events.{decimal}

abbrev pub Counts : Type 0
Counts = List (Bytes × ℕ)

-- `retries[name]`, 0 where it is missing.
unfoldable pub count_of : Bytes → Counts → ℕ
count_of name [] = 0
count_of name ((n, c) ∷ rest) = if same_text n name then c else count_of name rest

unfoldable pub delete_count : Bytes → Counts → Counts
delete_count name [] = []
delete_count name ((n, c) ∷ rest) =
    let others = delete_count name rest in if same_text n name then others else (n, c) ∷ others

-- `slices.Sort` on the names, by their bytes.
text_le : Bytes → Bytes → Bool
text_le [] t = true
text_le (c ∷ s) [] = false
text_le (c ∷ s) (d ∷ t) = if c == d then text_le s t else ltb c d

insert_name : Bytes × ℕ → Counts → Counts
insert_name e [] = e ∷ []
insert_name e (f ∷ rest) = if text_le e.0 f.0 then e ∷ f ∷ rest else f ∷ insert_name e rest

sort_names : Counts → Counts
sort_names [] = []
sort_names (e ∷ rest) = insert_name e (sort_names rest)

parts_of_counts : Counts → List Bytes
parts_of_counts [] = []
parts_of_counts ((n, c) ∷ rest) =
    let others = parts_of_counts rest in
    if ltb 0 c then (n ++ (b'=' ∷ decimal c)) ∷ others else others

unfoldable pub summarize_nonzero_counts : Counts → Bytes
unfolding sort_names insert_name text_le parts_of_counts
summarize_nonzero_counts counts = join (parts_of_counts (sort_names counts)) (codes ", ")

-- Retries of a name are tolerated.
unfoldable pub tolerate : Bytes → Counts → Counts
tolerate name counts = if ltb 0 (count_of name counts) then delete_count name counts else counts

-- The summary with which the scenario fails, if it does.
unfoldable pub fail_on_unexpected_delivery_retries : Counts → Option Bytes
fail_on_unexpected_delivery_retries retries =
    let rest = tolerate (codes "TEXT") (tolerate (codes "STATUS") retries) in
    let summary = summarize_nonzero_counts rest in if is_nil summary then none else some summary

-- The name is counted at most once.
abbrev Absent : Bytes → Counts → Type 0
Absent name m = All (λ (e : Bytes × ℕ). same_text e.0 name ≡ false) m

abbrev pub IsMap : Counts → Type 0
IsMap [] = Unit
IsMap ((n, c) ∷ rest) = Absent n rest × IsMap rest

abbrev pub AllZero : Counts → Type 0
AllZero m = All (λ (e : Bytes × ℕ). e.1 ≡ 0) m

abbrev pub Tolerated : Counts → Type 0
Tolerated m = All (λ (e : Bytes × ℕ). (e.0 ≡ codes "STATUS") ⊎ ((e.0 ≡ codes "TEXT") ⊎ (e.1 ≡ 0))) m

module _ (P : Bytes × ℕ → Type 0) where
  All-insert_name : (e : Bytes × ℕ) (m : Counts) → P e → All P m → All P (insert_name e m)
  unfolding insert_name
  All-insert_name e [] h k = (h, tt)
  All-insert_name e (f ∷ rest) h k = elim (Bool-cases (text_le e.0 f.0)) [
    | inl b ↦ rw b (h, k)
    | inr b ↦ rw b (k.0, All-insert_name e rest h k.1)
  ]

  insert_name-All : (e : Bytes × ℕ) (m : Counts) → All P (insert_name e m) → P e × All P m
  unfolding insert_name
  insert_name-All e [] h = h
  insert_name-All e (f ∷ rest) h = go (text_le e.0 f.0) h (insert_name-All e rest)
    where
      go :
          (b : Bool)
          → All P (if b then e ∷ f ∷ rest else f ∷ insert_name e rest)
          → (All P (insert_name e rest) → P e × All P rest)
          → P e × (P f × All P rest)
      go true h ih = h
      go false h ih = ((ih h.1).0, (h.0, (ih h.1).1))

  sort_names-All : (m : Counts) → All P (sort_names m) ↔ All P m
  unfolding sort_names
  sort_names-All [] = (λ h. h, λ h. h)
  sort_names-All (e ∷ rest) = (
    (λ h.
        let (first, others) = insert_name-All e (sort_names rest) h in
        (first, (sort_names-All rest).0 others)),
    (λ h. All-insert_name e (sort_names rest) h.0 ((sort_names-All rest).1 h.1)),
  )

join-cons :
    (n back : Bytes) (x : ℕ) (ps : List Bytes) (sep : Bytes)
    → is_nil (join ((n ++ (x ∷ back)) ∷ ps) sep) ≡ false
unfolding join
join-cons [] back x [] sep = refl
join-cons (c ∷ n) back x [] sep = refl
join-cons [] back x (p ∷ ps) sep = refl
join-cons (c ∷ n) back x (p ∷ ps) sep = refl

join-nil : (m : Counts) → (is_nil (join (parts_of_counts m) (codes ", ")) ≡ true) ↔ AllZero m
unfolding parts_of_counts
join-nil [] = unfold join in (λ h. tt, λ h. refl)
join-nil ((n, c) ∷ rest) = elim (Bool-cases (ltb 0 c)) [
  | inl b ↦ rw b (
    (λ h.
        absurd (
          false≢true (sym (join-cons n (decimal c) b'=' (parts_of_counts rest) (codes ", ")) ∙ h))),
    (λ h. absurd (omega (arith, ltb→lt 0 c b, h.0))),
  )
  | inr b ↦ rw b ((λ h. (ground arith, (join-nil rest).0 h)), (λ h. (join-nil rest).1 h.1))
]
  where
    false≢true : false ≡ true → ⊥
    false≢true p = cc

Absent-delete : (k n : Bytes) (m : Counts) → Absent n m → Absent n (delete_count k m)
unfolding delete_count
Absent-delete k n [] h = tt
Absent-delete k n ((o, c) ∷ rest) h = elim (Bool-cases (same_text o k)) [
  | inl b ↦ rw b (Absent-delete k n rest h.1)
  | inr b ↦ rw b (h.0, Absent-delete k n rest h.1)
]

IsMap-delete : (k : Bytes) (m : Counts) → IsMap m → IsMap (delete_count k m)
unfolding delete_count
IsMap-delete k [] h = tt
IsMap-delete k ((n, c) ∷ rest) h = elim (Bool-cases (same_text n k)) [
  | inl b ↦ rw b (IsMap-delete k rest h.1)
  | inr b ↦ rw b (Absent-delete k n rest h.0, IsMap-delete k rest h.1)
]

IsMap-tolerate : (k : Bytes) (m : Counts) → IsMap m → IsMap (tolerate k m)
unfolding tolerate
IsMap-tolerate k m h = elim (Bool-cases (ltb 0 (count_of k m))) [
  | inl b ↦ rw b (IsMap-delete k m h)
  | inr b ↦ rw b h
]

-- A predicate that allows every name with the count 0, before and behind the toleration of one.
module _ (P : Bytes × ℕ → Type 0) (zero_ok : (e : Bytes × ℕ) → e.1 ≡ 0 → P e) (k : Bytes) where
  abbrev But : Counts → Type 0
  But m = All (λ (e : Bytes × ℕ). (same_text e.0 k ≡ true) ⊎ P e) m

  But-All : (m : Counts) → All P m → But m
  But-All [] h = tt
  But-All (e ∷ rest) h = (inr h.0, But-All rest h.1)

  delete_count-All : (m : Counts) → All P (delete_count k m) ↔ But m
  unfolding delete_count
  delete_count-All [] = (λ h. h, λ h. h)
  delete_count-All ((n, c) ∷ rest) = elim (Bool-cases (same_text n k)) [
    | inl b ↦
        rw b ((λ h. (inl refl, (delete_count-All rest).0 h)), (λ h. (delete_count-All rest).1 h.1))
    | inr b ↦ rw b (
      (λ h. (inr h.0, (delete_count-All rest).0 h.1)),
      (λ h. (other h.0, (delete_count-All rest).1 h.1)),
    )
  ]
    where
      other : ((false ≡ true) ⊎ P (n, c)) → P (n, c)
      other (inl p) = cc
      other (inr p) = p

  -- Where the name is absent.
  But-Absent : (m : Counts) → Absent k m → But m → All P m
  But-Absent [] a h = tt
  But-Absent (e ∷ rest) a (inl p, h) = cc
  But-Absent (e ∷ rest) a (inr p, h) = (p, But-Absent rest a.1 h)

  count_of-All : (m : Counts) → IsMap m → count_of k m ≡ 0 → But m → All P m
  unfolding count_of
  count_of-All [] i z h = tt
  count_of-All ((n, c) ∷ rest) i z h = elim (Bool-cases (same_text n k)) [
    | inl b ↦
        let same : n ≡ k = (same_text_iff n k).0 b in
        (zero_ok (n, c) (rw b at z), But-Absent rest (subst (λ x. Absent x rest) same i.0) h.1)
    | inr b ↦ (first b h.0, count_of-All rest i.1 (rw b at z) h.1)
  ]
    where
      first : same_text n k ≡ false → ((same_text n k ≡ true) ⊎ P (n, c)) → P (n, c)
      first b (inl p) = cc
      first b (inr p) = p

  tolerate-All : (m : Counts) → IsMap m → All P (tolerate k m) ↔ But m
  unfolding tolerate
  tolerate-All m i = elim (Bool-cases (ltb 0 (count_of k m))) [
    | inl b ↦ rw b (delete_count-All m)
    | inr b ↦ rw b (But-All m, count_of-All m i (ground arith))
  ]

and_then : {A B C : Type 0} → (A ↔ B) → (B ↔ C) → A ↔ C
and_then (f, f') (g, g') = (λ a. g (f a), λ c. f' (g' c))

abbrev IsZero : Bytes × ℕ → Type 0
IsZero e = e.1 ≡ 0

abbrev IsText : Bytes × ℕ → Type 0
IsText e = (same_text e.0 (codes "TEXT") ≡ true) ⊎ IsZero e

-- The two names, told apart by `same_text`.
But-Tolerated : (m : Counts) → But IsText (λ e z. inr z) (codes "STATUS") m ↔ Tolerated m
But-Tolerated [] = (λ h. h, λ h. h)
But-Tolerated ((n, c) ∷ rest) =
    ((λ h. (to h.0, (But-Tolerated rest).0 h.1)), (λ h. (from h.0, (But-Tolerated rest).1 h.1)))
  where
    to :
        ((same_text n (codes "STATUS") ≡ true) ⊎ IsText (n, c))
        → (n ≡ codes "STATUS") ⊎ ((n ≡ codes "TEXT") ⊎ (c ≡ 0))
    to (inl p) = inl ((same_text_iff n (codes "STATUS")).0 p)
    to (inr (inl p)) = inr (inl ((same_text_iff n (codes "TEXT")).0 p))
    to (inr (inr p)) = inr (inr p)

    from :
        (n ≡ codes "STATUS") ⊎ ((n ≡ codes "TEXT") ⊎ (c ≡ 0))
        → (same_text n (codes "STATUS") ≡ true) ⊎ IsText (n, c)
    from (inl p) = inl ((same_text_iff n (codes "STATUS")).1 p)
    from (inr (inl p)) = inr (inl ((same_text_iff n (codes "TEXT")).1 p))
    from (inr (inr p)) = inr (inr p)

none_iff : (b : Bool) (t : Bytes) → ((if b then none else some t) ≡ none) ↔ (b ≡ true)
none_iff true t = (λ h. refl, λ h. refl)
none_iff false t = (λ h. cc, λ h. cc)

-- With one count for each name, a scenario fails on its delivery retries exactly if something
-- else than a STATUS or a TEXT was retried.
pub fail_on_unexpected_delivery_retries-none :
    (retries : Counts)
    → IsMap retries
    → (fail_on_unexpected_delivery_retries retries ≡ none) ↔ Tolerated retries
unfolding fail_on_unexpected_delivery_retries summarize_nonzero_counts
fail_on_unexpected_delivery_retries-none m i =
    let m1 = tolerate (codes "STATUS") m in
    let m2 = tolerate (codes "TEXT") m1 in
    and_then (none_iff (is_nil (summarize_nonzero_counts m2)) (summarize_nonzero_counts m2)) (
      and_then (join-nil (sort_names m2)) (
        and_then (sort_names-All IsZero m2) (
          and_then
            (tolerate-All IsZero (λ e z. z) (codes "TEXT") m1 (IsMap-tolerate (codes "STATUS") m i))
            (and_then (tolerate-All IsText (λ e z. inr z) (codes "STATUS") m i)
              (But-Tolerated m)))))
