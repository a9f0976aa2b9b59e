-- ===== src/Node/SessionManager/Rooms.antt =====
-- The sessions that are in a room.
use clustertalk_githubaction.Prelude.{
  length, ℕ, ◌≤◌, ◌+◌, Option-cases, ◌≡◌, refl, arith, Bool, true, false, Option, none, some, List,
  [], ◌∷◌, if◌then◌else◌, Text, nat_eq, list_eq, text_eq_iff, ◌==◌, All, Bool-cases, inl, inr,
}
use clustertalk_githubaction.Prelude.Dict
use clustertalk_githubaction.Prelude.Dict.{Dict, IsDistinct}
use clustertalk_githubaction.Prelude.Set
use clustertalk_githubaction.Prelude.Sort.{filter}
use clustertalk_githubaction.Node.SessionState.{SessionState}
use clustertalk_githubaction.Node.SessionManager.{in_room}

abbrev pub AreUnique : List Text → Type 0
AreUnique [] = Unit
AreUnique (x ∷ l) = (Set.contains x l ≡ false) × AreUnique l

-- The live session under an id is in the room.
abbrev pub is_there : {P : Type 0} → Text → Option (SessionState P) → Bool
is_there room none = false
is_there room (some s) = s.room_id == room

module _ {P : Type 0} where
  -- Without repeated ids, a session is listed exactly if it is live and in the room.
  pub contains-in_room :
      (room sid : Text) (d : Dict Text (SessionState P))
      → IsDistinct d
      → Set.contains sid (in_room room d) ≡ is_there room (Dict.get sid d)
  unfolding in_room Set.contains Dict.get
  contains-in_room room sid [] h = refl
  contains-in_room room sid ((t, s) ∷ d) h = elim (Bool-cases (list_eq.beq t sid)) [
    | inl same ↦
        let gone : Dict.get sid d ≡ none = ground (arith, h.0, (text_eq_iff t sid).0 same) in
        ground (arith, same, gone, contains-in_room room sid d h.1)
    | inr other ↦ ground (arith, other, contains-in_room room sid d h.1)
  ]

  pub in_room-AreUnique :
      (room : Text) (d : Dict Text (SessionState P)) → IsDistinct d → AreUnique (in_room room d)
  unfolding in_room
  in_room-AreUnique room [] h = tt
  in_room-AreUnique room ((t, s) ∷ d) h =
      ground (arith, h.0, contains-in_room room t d h.1, in_room-AreUnique room d h.1)

-- Every key of a list is in the dict.
abbrev pub AreKeys : {V : Type 0} → List Text → Dict Text V → Type 0
AreKeys l d = All (λ k. Dict.has k d ≡ true) l

module _ {V : Type 0} where
  AreKeys-cons :
      (l : List Text) (j : Text) (w : V) (d : Dict Text V) → AreKeys l d → AreKeys l ((j, w) ∷ d)
  unfolding Dict.has
  AreKeys-cons [] j w d h = tt
  AreKeys-cons (k ∷ l) j w d (h, hs) = (ground (arith, h), AreKeys-cons l j w d hs)

  has-put :
      (k j : Text) (v : V) (d : Dict Text V)
      → Dict.has j d ≡ true
      → Dict.has j (Dict.put k v d) ≡ true
  has-put k j v d h =
      ground (arith, h, Dict.has-get j d, Dict.has-get j (Dict.put k v d), Dict.get-put k j v d)

  pub get_of_has :
      (k : Text) (d : Dict Text V) → Dict.has k d ≡ true → (v : V) × (Dict.get k d ≡ some v)
  get_of_has k d h = elim (Option-cases (Dict.get k d)) [
    | inl absent ↦ absurd (ground (arith, h, absent, Dict.has-get k d))
    | inr found ↦ found
  ]

  pub AreKeys-put :
      (l : List Text) (k : Text) (v : V) (d : Dict Text V)
      → AreKeys l d
      → AreKeys l (Dict.put k v d)
  AreKeys-put [] k v d h = tt
  AreKeys-put (j ∷ l) k v d (h, hs) = (has-put k j v d h, AreKeys-put l k v d hs)

module _ {P : Type 0} where
  pub in_room-AreKeys : (room : Text) (d : Dict Text (SessionState P)) → AreKeys (in_room room d) d
  unfolding in_room Dict.has
  in_room-AreKeys room [] = tt
  in_room-AreKeys room ((t, s) ∷ d) =
      let rest = AreKeys-cons (in_room room d) t s d (in_room-AreKeys room d) in
      elim (Bool-cases (s.room_id == room)) [
        | inl there ↦ rw there (ground (arith, text_eq_iff t t), rest)
        | inr elsewhere ↦ rw elsewhere rest
      ]

-- How many of the live sessions are in a room and kept
abbrev pub count_kept : {P : Type 0} → (Text → Bool) → Text → Dict Text (SessionState P) → ℕ
count_kept keep room d = length (filter keep (in_room room d))

-- Putting a session into a dict adds at most itself, and only to its own room.
pub count_kept-put :
    {P : Type 0} (keep : Text → Bool) (room sid : Text) (s : SessionState P)
    (d : Dict Text (SessionState P))
    → count_kept keep room (Dict.put sid s d)
      ≤ count_kept keep room d + (if s.room_id == room then 1 else 0)
unfolding in_room filter Dict.put
count_kept-put keep room sid s [] = ground arith
count_kept-put keep room sid s ((j, t) ∷ d) = ground (arith, count_kept-put keep room sid s d)
