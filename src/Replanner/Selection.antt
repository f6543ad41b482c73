-- ===== src/Replanner/Selection.antt =====
-- AlternativeSelector.selectBest: which alternative it selects.
use moon_bot.Prelude.{
  ℕ, ◌≤◌, String, ◌≡◌, sym, ap, ◌∙◌, Bool, true, not, some, List, [], ◌∷◌, arith, subst,
  some-injective, false≢true, leb, All, filter, inl, inr, Bool-cases,
}
use moon_bot.Replanner.Types.{ToolFailure, AlternativeTool}
use moon_bot.Replanner.Selector.{
  AlternativeSelector, has_tool, insert, sort, configured, find_alternatives, head?, select_best,
}

abbrev IsSorted : List AlternativeTool → Type 0
IsSorted [] = Unit
IsSorted (a ∷ rest) = All (λ b. a.priority ≤ b.priority) rest × IsSorted rest

All-insert :
    (P : AlternativeTool → Type 0) (a : AlternativeTool) (bs : List AlternativeTool)
    → P a
    → All P bs
    → All P (insert a bs)
unfolding insert
All-insert P a [] h hs = (h, tt)
All-insert P a (b ∷ bs) h hs = elim (Bool-cases (leb a.priority b.priority)) [
  | inl le ↦ rw le (h, hs)
  | inr gt ↦ rw gt (hs.0, All-insert P a bs h hs.1)
]

All-of_insert :
    (P : AlternativeTool → Type 0) (a : AlternativeTool) (bs : List AlternativeTool)
    → All P (insert a bs)
    → P a × All P bs
unfolding insert
All-of_insert P a [] = λ h. h
All-of_insert P a (b ∷ bs) = elim (Bool-cases (leb a.priority b.priority)) [
  | inl le ↦ rw le (λ h. h)
  | inr gt ↦ rw gt (λ h. let t = All-of_insert P a bs h.1 in (t.0, (h.0, t.1)))
]

All-of_sort :
    (P : AlternativeTool → Type 0) (xs : List AlternativeTool) → All P (sort xs) → All P xs
unfolding sort
All-of_sort P [] h = h
All-of_sort P (a ∷ xs) h = let t = All-of_insert P a (sort xs) h in (t.0, All-of_sort P xs t.1)

All-le :
    (m n : ℕ) (bs : List AlternativeTool)
    → m ≤ n
    → All (λ b. n ≤ b.priority) bs
    → All (λ b. m ≤ b.priority) bs
All-le m n [] h hs = tt
All-le m n (b ∷ bs) h hs = (omega (arith, hs.0), All-le m n bs h hs.1)

insert-IsSorted :
    (a : AlternativeTool) (bs : List AlternativeTool) → IsSorted bs → IsSorted (insert a bs)
unfolding insert
insert-IsSorted a [] s = (tt, tt)
insert-IsSorted a (b ∷ bs) s = elim (Bool-cases (leb a.priority b.priority)) [
  | inl le ↦
      let h : a.priority ≤ b.priority = ground arith in
      rw le ((h, All-le a.priority b.priority bs h s.0), s)
  | inr gt ↦
      rw gt (
        All-insert (λ c. b.priority ≤ c.priority) a bs (ground arith) s.0,
        insert-IsSorted a bs s.1,
      )
]

sort-IsSorted : (xs : List AlternativeTool) → IsSorted (sort xs)
unfolding sort
sort-IsSorted [] = tt
sort-IsSorted (a ∷ xs) = insert-IsSorted a (sort xs) (sort-IsSorted xs)

-- The first that passes a test in a sorted list is as good as any that passes.
abbrev IsBest : (AlternativeTool → Bool) → AlternativeTool → List AlternativeTool → Type 0
IsBest test a xs = (test a ≡ true) × All (λ b. test b ≡ true → a.priority ≤ b.priority) xs

All-imp :
    (test : AlternativeTool → Bool) (n : ℕ) (bs : List AlternativeTool)
    → All (λ b. n ≤ b.priority) bs
    → All (λ b. test b ≡ true → n ≤ b.priority) bs
All-imp test n [] h = tt
All-imp test n (b ∷ bs) h = ((λ _. h.0), All-imp test n bs h.1)

first-IsBest :
    (test : AlternativeTool → Bool) (a : AlternativeTool) (xs : List AlternativeTool)
    → IsSorted xs
    → head? (filter test xs) ≡ some a
    → IsBest test a xs
first-IsBest test a [] s = λ h. ground (arith, h)
first-IsBest test a (b ∷ bs) s = elim (Bool-cases (test b)) [
  | inl t ↦ rw t (λ h.
      let q = some-injective b a h in
      (
        sym (ap test q) ∙ t,
        (
          (λ _. subst (λ (c : AlternativeTool). c.priority ≤ b.priority) q (omega arith)),
          All-imp test a.priority bs
              (subst (λ (c : AlternativeTool). All (λ d. c.priority ≤ d.priority) bs) q s.0),
        ),
      ))
  | inr f ↦
      rw f (λ h. let r = first-IsBest test a bs s.1 h in (r.0, ((λ e. absurd (false≢true e)), r.1)))
]

first-All :
    (P : AlternativeTool → Type 0) (test : AlternativeTool → Bool) (a : AlternativeTool)
    (xs : List AlternativeTool)
    → All P xs
    → head? (filter test xs) ≡ some a
    → P a
first-All P test a [] hs = λ h. ground (arith, h)
first-All P test a (b ∷ bs) hs = elim (Bool-cases (test b)) [
  | inl t ↦ rw t (λ h. subst P (some-injective b a h) hs.0)
  | inr f ↦ rw f (first-All P test a bs hs.1)
]

All-sort : (P : AlternativeTool → Type 0) (xs : List AlternativeTool) → All P xs → All P (sort xs)
unfolding sort
All-sort P [] h = h
All-sort P (a ∷ xs) h = All-insert P a (sort xs) h.0 (All-sort P xs h.1)

filter-All :
    (test : AlternativeTool → Bool) (xs : List AlternativeTool)
    → All (λ b. test b ≡ true) (filter test xs)
filter-All test [] = tt
filter-All test (b ∷ bs) = elim (Bool-cases (test b)) [
  | inl t ↦ rw t (t, filter-All test bs)
  | inr f ↦ rw f (filter-All test bs)
]

All-of_filter :
    (P : AlternativeTool → Type 0) (test : AlternativeTool → Bool) (xs : List AlternativeTool)
    → All P (filter test xs)
    → All (λ b. test b ≡ true → P b) xs
All-of_filter P test [] = λ h. tt
All-of_filter P test (b ∷ bs) = elim (Bool-cases (test b)) [
  | inl t ↦ rw t (λ h. ((λ _. h.0), All-of_filter P test bs h.1))
  | inr f ↦ rw f (λ h. ((λ e. absurd (false≢true e)), All-of_filter P test bs h))
]

abbrev is_available : AlternativeSelector → AlternativeTool → Bool
is_available s a = has_tool a.tool_id s.available_tools

abbrev is_new : List String → AlternativeTool → Bool
is_new tried a = not (has_tool a.tool_id tried)

-- An available tool that is not among those tried, and of those that are configured none comes
-- before it.
abbrev pub IsChoice : AlternativeSelector → String → List String → AlternativeTool → Type 0
IsChoice s tool_id tried a =
    (is_available s a ≡ true)
    × (is_new tried a ≡ true)
    × All (λ b. is_available s b ≡ true → is_new tried b ≡ true → a.priority ≤ b.priority)
        (configured tool_id s)

pub select_best-IsChoice :
    (f : ToolFailure) (tried : List String) (s : AlternativeSelector) (a : AlternativeTool)
    → select_best f tried s ≡ some a
    → IsChoice s f.tool_id tried a
unfolding select_best find_alternatives
select_best-IsChoice f tried s a h =
    let here = filter (is_available s) (configured f.tool_id s) in
    let best = first-IsBest (is_new tried) a (sort here) (sort-IsSorted here) h in
    (
      first-All (λ b. is_available s b ≡ true) (is_new tried) a (sort here)
          (All-sort (λ b. is_available s b ≡ true) here
            (filter-All (is_available s) (configured f.tool_id s)))
          h,
      best.0,
      All-of_filter (λ b. is_new tried b ≡ true → a.priority ≤ b.priority) (is_available s)
          (configured f.tool_id s)
          (All-of_sort (λ b. is_new tried b ≡ true → a.priority ≤ b.priority) here best.1),
    )
