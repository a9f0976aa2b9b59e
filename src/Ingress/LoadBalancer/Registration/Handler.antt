-- ===== src/Ingress/LoadBalancer/Registration/Handler.antt =====
-- `_handle_registration` of ingress/lb.py: the connection over which a node announces itself and
-- reports its health. The frames are those that arrive before the connection ends in an error.
use clustertalk_githubaction.Prelude.{
  ℕ, ◌≡◌, refl, ◌∙◌, ap, arith, Bool, true, Option, none, some, List, [], ◌∷◌, nat_beq, nat_beq_iff,
  if◌then◌else◌, Text,
}
use clustertalk_githubaction.Ingress.LoadBalancer.{Redis, LoadBalancer, set_at}
use clustertalk_githubaction.Ingress.LoadBalancer.Registration.{
  register_dynamic_backend, deregister_dynamic_backend, node_status,
}

-- The members of the payload that are read
pub data NodeFrame : Type 0 where
  node_announce : Option Text → Option ℕ → NodeFrame
  status_report : Option Bool → NodeFrame
  other_frame : NodeFrame

-- `payload.get("healthy", True)`
unfoldable pub healthy_or_true : Option Bool → Bool
healthy_or_true none = true
healthy_or_true (some healthy) = healthy

-- The host and the port of an announcement, neither of them empty; `none` closes the connection.
unfoldable pub announced : Option NodeFrame → Option (Text × ℕ)
announced (some (node_announce (some (c ∷ host)) (some port))) =
    if nat_beq port 0 then none else some (c ∷ host, port)
announced (some (node_announce (some []) (some port))) = none
announced (some (node_announce (some host) none)) = none
announced (some (node_announce none port)) = none
announced (some (status_report healthy)) = none
announced (some other_frame) = none
announced none = none

-- The last report of a node, from the one before
unfoldable pub last_report : List NodeFrame → Bool → Bool
unfolding healthy_or_true
last_report [] healthy = healthy
last_report (status_report reported ∷ frames) healthy =
    last_report frames (healthy_or_true reported)
last_report (node_announce host port ∷ frames) healthy = last_report frames healthy
last_report (other_frame ∷ frames) healthy = last_report frames healthy

module _ {R : Type 0} where
  -- The `while` loop
  unfoldable pub on_reports : ℕ → List NodeFrame → LoadBalancer R → LoadBalancer R
  unfolding healthy_or_true node_status
  on_reports r [] lb = lb
  on_reports r (status_report healthy ∷ frames) lb =
      on_reports r frames (node_status r (healthy_or_true healthy) lb)
  on_reports r (node_announce host port ∷ frames) lb = on_reports r frames lb
  on_reports r (other_frame ∷ frames) lb = on_reports r frames lb

  registered : Redis R → List NodeFrame → Option (Text × ℕ) → LoadBalancer R → LoadBalancer R
  unfolding on_reports register_dynamic_backend deregister_dynamic_backend
  registered redis frames none lb = lb
  registered redis frames (some (host, port)) lb =
      let ((r, epoch), lb') = register_dynamic_backend host port lb in
      deregister_dynamic_backend redis r epoch (on_reports r frames lb')

  -- `_handle_registration` from its first frame, which is `none` when reading it fails
  unfoldable pub handle_registration :
      Redis R → Option NodeFrame → List NodeFrame → LoadBalancer R → LoadBalancer R
  unfolding registered announced
  handle_registration redis first frames lb = registered redis frames (announced first) lb

  -- While a node is connected, its backend is as healthy as its last report says.
  healthy-on_reports :
      (r : ℕ) (frames : List NodeFrame) (lb : LoadBalancer R)
      → ((on_reports r frames lb).heap r).healthy ≡ last_report frames (lb.heap r).healthy
  unfolding on_reports last_report healthy_or_true node_status set_at
  healthy-on_reports r [] lb = refl
  healthy-on_reports r (status_report healthy ∷ frames) lb =
      healthy-on_reports r frames (node_status r (healthy_or_true healthy) lb)
      ∙ ap (last_report frames) (ground (arith, nat_beq_iff r r))
  healthy-on_reports r (node_announce host port ∷ frames) lb = healthy-on_reports r frames lb
  healthy-on_reports r (other_frame ∷ frames) lb = healthy-on_reports r frames lb
