-- ===== src/Node/Mesh/Network/Examples.antt =====
-- Three nodes in a row: the first puts a message into the mesh, the second passes it on.
use mathlib.Core.Path.{subst}
use clustertalk_githubaction.Prelude.{
  ℕ, ◌≡◌, ◌≤◌, refl, arith, some, List, [], ◌∷◌, nat_beq, if◌then◌else◌, Text, ◌==◌, nat_eq,
  list_eq, text_eq_iff, Bool-cases, inl, inr, All,
}
use clustertalk_githubaction.Prelude.Dict
use clustertalk_githubaction.Prelude.Dict.{Dict}
use clustertalk_githubaction.Prelude.Set
use clustertalk_githubaction.Node.DedupCache
use clustertalk_githubaction.Node.DedupCache.{seen_before}
use clustertalk_githubaction.Node.Mesh.{on_relay, relay_message, flood, flooded}
use clustertalk_githubaction.Node.Mesh.Examples.{hello_relay}
use clustertalk_githubaction.Node.Mesh.Network.{
  NetEvent, originates, carries, loses, links, Network, run, step, carried, arrive, with_site,
  left_with, receive, originate, fresh, minted, IsSteady, has_originated,
}
use clustertalk_githubaction.Node.Mesh.Network.Agreement.{starts, link}
use clustertalk_githubaction.Node.Mesh.Network.Delivery.{
  fresh_network, times_delivered, delivered_once, delivered_exactly_once,
}
use clustertalk_githubaction.Node.Mesh.Network.Integrity.{IsMinted, delivered-IsMinted}

abbrev first_node : Text
first_node = 1 ∷ []

abbrev second_node : Text
second_node = 2 ∷ []

abbrev third_node : Text
third_node = 3 ∷ []

abbrev row_peers : Text → Dict Text ℕ
row_peers name =
    if first_node == name
    then (second_node, 12) ∷ []
    else if second_node == name
    then (first_node, 21) ∷ (third_node, 23) ∷ []
    else if third_node == name
    then (second_node, 32) ∷ []
    else []

abbrev row_end : ℕ → Text
row_end w = if nat_beq w 21 then first_node else if nat_beq w 23 then third_node else second_node

abbrev passing : List NetEvent
passing = originates first_node hello_relay ∷ carries first_node 0 ∷ carries second_node 0 ∷ []

abbrev row : Network ℕ
row = fresh_network 5 row_peers

row-IsWired : (c q : Text) (w : ℕ) → Dict.get q (row_peers c) ≡ some w → row_end w ≡ q
unfolding Dict.get
row-IsWired c q w h =
    ground (arith, h, text_eq_iff first_node q, text_eq_iff second_node q, text_eq_iff third_node q)

passed-IsDrained : (c : Text) → (run row_end passing row c).manager.sent ≡ []
unfolding run step carried arrive with_site left_with receive originate fresh on_relay relay_message
    flood flooded seen_before Set.contains DedupCache.init
passed-IsDrained c = elim (Bool-cases (first_node == c)) [
  | inl one ↦
      subst (λ d. (run row_end passing row d).manager.sent ≡ []) ((text_eq_iff first_node c).0 one)
        refl
  | inr not_one ↦ elim (Bool-cases (second_node == c)) [
    | inl two ↦
        subst (λ d. (run row_end passing row d).manager.sent ≡ [])
          ((text_eq_iff second_node c).0 two) refl
    | inr not_two ↦ elim (Bool-cases (third_node == c)) [
      | inl three ↦
          subst (λ d. (run row_end passing row d).manager.sent ≡ [])
            ((text_eq_iff third_node c).0 three) refl
      | inr not_three ↦ rw (not_one, not_two, not_three) refl
    ]
  ]
]

delivered_exactly_once_example :
    times_delivered hello_relay.msg_id (run row_end passing row third_node)
    ≡ (if has_originated hello_relay.msg_id (run row_end passing row third_node) then 0 else 1)
unfolding run step carried arrive with_site left_with receive originate fresh on_relay relay_message
    flood flooded seen_before Set.contains DedupCache.init has_originated Dict.get minted IsSteady
delivered_exactly_once_example =
    delivered_exactly_once ℕ row_end 5 row_peers passing hello_relay.msg_id first_node third_node
      row-IsWired (omega arith) (refl, tt) tt passed-IsDrained refl
      (link {a = second_node} {w = 23} (link {a = first_node} {w = 12} starts refl) refl)

-- The link of the first two nodes is lost with the frame on it, and comes again.
abbrev losing : List NetEvent
losing =
    originates first_node hello_relay ∷ loses first_node 0 ∷ links first_node second_node 13 ∷ []

delivered_once_example :
    times_delivered hello_relay.msg_id (run row_end losing row second_node)
    ≤ (if has_originated hello_relay.msg_id (run row_end losing row second_node) then 0 else 1)
unfolding Set.contains minted
delivered_once_example =
    delivered_once ℕ row_end 5 row_peers losing hello_relay.msg_id second_node (omega arith)
      (refl, tt)

delivered-IsMinted_example :
    All (λ r. IsMinted r passing) (run row_end passing row third_node).manager.delivered
delivered-IsMinted_example = delivered-IsMinted ℕ row_end 5 row_peers passing third_node
