-- ===== src/Node/DedupCache/Window.antt =====
-- The cache against a memory that never forgets: it holds the most recently seen ids.
use clustertalk_githubaction.Prelude.{
  sym, ◌∙◌, ℕ, zero, suc, ◌+◌, ◌≤◌, ◌<◌, ◌≡◌, refl, arith, ap, true, false, List, [], ◌∷◌, length,
  take, ltb, if◌then◌else◌, HasEq, Bool-cases, inl, inr,
}
use clustertalk_githubaction.Prelude.Set
use clustertalk_githubaction.Node.DedupCache.{DedupCache, pop_oldest, init, seen_before}

module _ {A : Type 0} where
  pop_oldest-eq-take : (m : ℕ) (l : List A) → length l ≡ suc m → pop_oldest l ≡ take m l
  unfolding pop_oldest
  pop_oldest-eq-take m [] h = absurd (omega arith)
  pop_oldest-eq-take zero (x ∷ []) h = refl
  pop_oldest-eq-take (suc m) (x ∷ []) h = absurd (omega arith)
  pop_oldest-eq-take zero (x ∷ y ∷ l) h = absurd (omega arith)
  pop_oldest-eq-take (suc m) (x ∷ y ∷ l) h = ap (◌∷◌ x) (pop_oldest-eq-take m (y ∷ l) (omega arith))

  take_all : (m : ℕ) (l : List A) → length l ≤ m → take m l ≡ l
  take_all zero [] h = refl
  take_all zero (x ∷ l) h = absurd (omega arith)
  take_all (suc m) [] h = refl
  take_all (suc m) (x ∷ l) h = ap (◌∷◌ x) (take_all m l (omega arith))

  length-take-le : (m : ℕ) (l : List A) → length (take m l) ≤ m
  length-take-le zero l = omega arith
  length-take-le (suc m) [] = omega arith
  length-take-le (suc m) (x ∷ l) = omega (arith, length-take-le m l)

  take-suc-take : (m : ℕ) (l : List A) → take m (take (suc m) l) ≡ take m l
  take-suc-take zero l = refl
  take-suc-take (suc m) [] = refl
  take-suc-take (suc m) (x ∷ l) = ap (◌∷◌ x) (take-suc-take m l)

module _ {A : Type 0} ⦃e : HasEq A⦄ where
  abbrev pub IsUnique : List A → Type 0
  IsUnique [] = Unit
  IsUnique (x ∷ l) = (Set.contains x l ≡ false) × IsUnique l

  discard_absent : (x : A) (l : List A) → Set.contains x l ≡ false → Set.discard x l ≡ l
  unfolding Set.contains Set.discard
  discard_absent x [] h = refl
  discard_absent x (y ∷ l) h = ground (arith, discard_absent x l)

  contains-take :
      (x : A) (m : ℕ) (l : List A) → Set.contains x l ≡ false → Set.contains x (take m l) ≡ false
  unfolding Set.contains
  contains-take x zero l h = refl
  contains-take x (suc m) [] h = refl
  contains-take x (suc m) (y ∷ l) h = ground (arith, contains-take x m l)

  discard-IsUnique : (x : A) (l : List A) → IsUnique l → IsUnique (Set.discard x l)
  unfolding Set.contains Set.discard
  discard-IsUnique x [] h = h
  discard-IsUnique x (y ∷ l) h = ground (arith, discard-IsUnique x l, Set.contains-discard x y l)

  -- Taking a member out of the window lets one more of the others in.
  discard-take_member :
      (x : A) (m : ℕ) (l : List A)
      → IsUnique l
      → Set.contains x (take (suc m) l) ≡ true
      → Set.discard x (take (suc m) l) ≡ take m (Set.discard x l)
  unfolding Set.contains Set.discard
  discard-take_member x m [] u h = ground arith
  discard-take_member x zero (y ∷ l) u h = ground arith
  discard-take_member x (suc m) (y ∷ l) u h = ground (
    arith,
    e.beq_iff y x,
    discard-take_member x m l,
    discard_absent x l,
    discard_absent x (take (suc m) l),
    contains-take x (suc m) l,
  )

  take-discard_absent :
      (x : A) (m : ℕ) (l : List A)
      → Set.contains x (take m l) ≡ false
      → take m (Set.discard x l) ≡ take m l
  unfolding Set.contains Set.discard
  take-discard_absent x zero l h = refl
  take-discard_absent x (suc m) [] h = refl
  take-discard_absent x (suc m) (y ∷ l) h = ground (arith, take-discard_absent x m l)

  -- The memory that never forgets: every id ever handled, the most recent first.
  pub note : A → List A → List A
  note x h = x ∷ Set.discard x h

  pub note_all : List A → List A → List A
  unfolding note
  note_all [] h = h
  note_all (x ∷ xs) h = note_all xs (note x h)

  unfoldable pub see_all : List A → DedupCache A → DedupCache A
  see_all [] c = c
  see_all (x ∷ xs) c = see_all xs (seen_before x c).1

  miss-eq-take :
      (x : A) (m : ℕ) (h : List A)
      → Set.contains x (take m h) ≡ false
      → (if ltb m (length (x ∷ take m h)) then pop_oldest (x ∷ take m h) else x ∷ take m h)
        ≡ take m (note x h)
  unfolding note
  miss-eq-take x zero h out = unfold pop_oldest in refl
  miss-eq-take x (suc k) h out =
      let w = take (suc k) h in
      let shorter : take k w ≡ take k h = take-suc-take k h in
      let out' : Set.contains x (take k h) ≡ false = rw (← shorter) (contains-take x k w out) in
      elim (Bool-cases (ltb (suc k) (length (x ∷ w)))) [
        | inl full ↦
            rw (full, pop_oldest-eq-take (suc k) (x ∷ w) (ground (arith, length-take-le (suc k) h)))
              (ap (◌∷◌ x) (shorter ∙ sym (take-discard_absent x k h out')))
        | inr room ↦ rw room (
            ap (◌∷◌ x)
              (sym (take_all k w (ground arith)) ∙ shorter ∙ sym (take-discard_absent x k h out')))
      ]

  note-IsUnique : (x : A) (h : List A) → IsUnique h → IsUnique (note x h)
  unfolding note
  note-IsUnique x h u =
      (ground (arith, Set.contains-discard x x h, e.beq_iff x x), discard-IsUnique x h u)

  empty-window : (x : A) → Set.contains x [] ≡ true → ⊥
  unfolding Set.contains
  empty-window x h = cc

  hit-eq-take :
      (x : A) (m : ℕ) (h : List A)
      → IsUnique h
      → Set.contains x (take m h) ≡ true
      → x ∷ Set.discard x (take m h) ≡ take m (note x h)
  unfolding note
  hit-eq-take x zero h u here = absurd (empty-window x here)
  hit-eq-take x (suc k) h u here = ap (◌∷◌ x) (discard-take_member x k h u here)

  -- The cache that holds the first `m` ids of `h`.
  abbrev pub window : ℕ → List A → DedupCache A
  window m h = record { max_size = m; seen = take m h }

  seen_before-window :
      (x : A) (m : ℕ) (h : List A)
      → IsUnique h
      → seen_before x (window m h) ≡ (Set.contains x (take m h), window m (note x h))
  unfolding seen_before
  seen_before-window x m h u = elim (Bool-cases (Set.contains x (take m h))) [
    | inl here ↦ rw (here, hit-eq-take x m h u here)
    | inr new ↦ rw (new, miss-eq-take x m h new)
  ]

  see_all-window :
      (xs : List A) (m : ℕ) (h : List A)
      → IsUnique h
      → (see_all xs (window m h) ≡ window m (note_all xs h)) × IsUnique (note_all xs h)
  unfolding see_all note_all
  see_all-window [] m h u = (refl, u)
  see_all-window (x ∷ xs) m h u =
      rw (seen_before-window x m h u) (see_all-window xs m (note x h) (note-IsUnique x h u))

  init-window : (m : ℕ) → init {A = A} m ≡ window m []
  unfolding init
  init-window zero = refl
  init-window (suc m) = refl

  -- After any ids, the cache holds exactly the `max_size` most recently seen ones, and an id is
  -- reported as seen exactly when it is among them.
  pub seen_before-recent :
      (m : ℕ) (xs : List A) (x : A)
      → ((see_all xs (init m)).seen ≡ take m (note_all xs []))
        × ((seen_before x (see_all xs (init m))).0 ≡ Set.contains x (take m (note_all xs [])))
  seen_before-recent m xs x =
      let (state, u) = see_all-window xs m [] tt in
      rw (init-window m, state) (refl, ap (λ r. r.0) (seen_before-window x m (note_all xs []) u))

  -- The cache never holds more than `max_size` ids.
  pub length-see_all-le : (m : ℕ) (xs : List A) → length (see_all xs (init m)).seen ≤ m
  length-see_all-le m xs =
      let (state, u) = see_all-window xs m [] tt in
      rw (init-window m, state) (length-take-le m (note_all xs []))

  contains-take-suc :
      (x : A) (k : ℕ) (h : List A)
      → Set.contains x (take k h) ≡ true
      → Set.contains x (take (suc k) h) ≡ true
  unfolding Set.contains
  contains-take-suc x zero h here = absurd (empty-window x here)
  contains-take-suc x (suc k) [] here = here
  contains-take-suc x (suc k) (y ∷ h) here = ground (arith, contains-take-suc x k h)

  contains-take-le :
      (x : A) (k m : ℕ) (h : List A)
      → k ≤ m
      → Set.contains x (take k h) ≡ true
      → Set.contains x (take m h) ≡ true
  unfolding Set.contains
  contains-take-le x zero m h le here = absurd (empty-window x here)
  contains-take-le x (suc k) zero h le here = absurd (omega arith)
  contains-take-le x (suc k) (suc m) [] le here = here
  contains-take-le x (suc k) (suc m) (y ∷ h) le here =
      ground (arith, contains-take-le x k m h (omega arith))

  head-note : (x : A) (h : List A) → Set.contains x (take 1 (note x h)) ≡ true
  unfolding note Set.contains
  head-note x h = ground (arith, e.beq_iff x x)

  contains-take-discard :
      (x y : A) (k : ℕ) (h : List A)
      → Set.contains x (take k h) ≡ true
      → e.beq y x ≡ false
      → Set.contains x (take k (Set.discard y h)) ≡ true
  unfolding Set.contains Set.discard
  contains-take-discard x y zero h here ne = absurd (empty-window x here)
  contains-take-discard x y (suc k) [] here ne = here
  contains-take-discard x y (suc k) (z ∷ h) here ne =
      ground (
        arith,
        e.beq_iff z y,
        contains-take-discard x y k h,
        contains-take-suc x k (Set.discard y h),
      )

  contains-take-note :
      (x y : A) (k : ℕ) (h : List A)
      → Set.contains x (take k h) ≡ true
      → Set.contains x (take (suc k) (note y h)) ≡ true
  unfolding note Set.contains
  contains-take-note x y k h here = ground (arith, contains-take-discard x y k h here)

  contains-take-note_all :
      (x : A) (ys : List A) (k m : ℕ) (h : List A)
      → Set.contains x (take k h) ≡ true
      → length ys + k ≤ m
      → Set.contains x (take m (note_all ys h)) ≡ true
  unfolding note_all
  contains-take-note_all x [] k m h here fits = contains-take-le x k m h (omega arith) here
  contains-take-note_all x (y ∷ ys) k m h here fits =
      contains-take-note_all x ys (suc k) m (note y h) (contains-take-note x y k h here)
        (omega arith)

  -- A repeat of an id is dropped as long as fewer than `max_size` ids came in between.
  pub repeat-seen :
      (m : ℕ) (xs ys : List A) (x : A)
      → length ys < m
      → (seen_before x (see_all ys (seen_before x (see_all xs (init m))).1)).0 ≡ true
  repeat-seen m xs ys x fits =
      let (state, u) = see_all-window xs m [] tt in
      let h = note_all xs [] in
      let (later, u') = see_all-window ys m (note x h) (note-IsUnique x h u) in
      rw
        (
          init-window m,
          state,
          seen_before-window x m h u,
          later,
          seen_before-window x m (note_all ys (note x h)) u',
        )
        (contains-take-note_all x ys 1 m (note x h) (head-note x h) (omega arith))
