-- ===== src/Capture/Handled.antt =====
-- What the handler of capture_bridge/bridge.py may do with a message.
use islands_kernel.Base.{
  String, ◌≡◌, refl, sym, ◌∙◌, ap, Bool, true, false, none, some, List, [], ◌∷◌, ◌⊎◌, inl, inr, Eq,
  string_eq, option_eq, pair_eq, contains, Result, ok, err, Result-cases, Option-cases, arith,
}
use islands_kernel.Base.Dict.{find}
use islands_kernel.Bus.TypeMatch.{codes}
use islands_kernel.Capture.Classify.{
  Runner, build_prompt, classify, choose_type, answer_of, same_codes, unclassifiable,
}
use islands_kernel.Capture.Bridge
use islands_kernel.Capture.Named.{IsNamed, resolve-IsNamed, resolve-unnamed}

-- One of the allowed types, or `unclassifiable`.
abbrev pub IsRoutable : List String → String → Type 0
IsRoutable allowed_types ctype = (contains allowed_types ctype ≡ true) ⊎ (ctype ≡ unclassifiable)

find-contains :
    (p : String → Bool) (ts : List String) (t : String) → find p ts ≡ some t → contains ts t ≡ true
unfolding find
find-contains p [] t h = ground arith
find-contains p (u ∷ ts) t h = ground (arith, find-contains p ts t)

choose_type-IsRoutable :
    (allowed_types : List String) (raw : String)
    → IsRoutable allowed_types (choose_type allowed_types raw)
unfolding choose_type
choose_type-IsRoutable allowed_types raw =
    let test = λ (t : String). same_codes (answer_of raw) (codes t) in
    elim (Option-cases (find test allowed_types)) [
      | inl absent ↦ rw (choose_type, absent) (inr refl)
      | inr (t, there) ↦ rw (choose_type, there) (inl (find-contains test allowed_types t there))
    ]

pub classify-IsRoutable :
    {World : Type 0} (runner : Runner World) (text : String) (allowed_types : List String)
    (claude_bin : String) (world : World)
    → IsRoutable allowed_types (classify runner text allowed_types claude_bin world).0
unfolding classify
classify-IsRoutable runner text allowed_types claude_bin world =
    elim (Option-cases (runner claude_bin (build_prompt text allowed_types) world).0) [
      | inl raised ↦ rw (raised) (inr refl)
      | inr (raw, there) ↦ rw (there) (choose_type-IsRoutable allowed_types raw)
    ]

module _ {UserId : Type 0} ⦃eq : Eq UserId⦄ (outside : Bridge.Outside)
    (deps : Bridge.BridgeDeps outside UserId) (entries : List (Bridge.Entry UserId))
    (message : Bridge.Message UserId) (world : outside.World) where
  -- What is answered and left behind for a sender without an identity.
  abbrev pub skip : Result Bridge.RouteError (Bridge.Handled outside.Plan) × outside.World
  skip = (
    ok (record {
      principal = none;
      org = none;
      type = none;
      plan = outside.no_plan;
      skipped = true;
    }),
    world,
  )

  -- A plan, under the identity and a type that may be routed.
  pub record IsRouted (ident : Bridge.Identity)
      (answer : Result Bridge.RouteError (Bridge.Handled outside.Plan)) : Type 0 where
    pub ctype : String
    pub plan : outside.Plan
    pub routable : IsRoutable deps.allowed_types ctype
    pub answered :
        answer
        ≡ ok (record {
          principal = some ident.principal;
          org = some ident.org;
          type = some ctype;
          plan = plan;
          skipped = false;
        })

  route_message-cases :
      (ident : Bridge.Identity)
      → let (answer, after) = Bridge.route_message outside deps ident message world in
        IsRouted ident answer ⊎ ((e : Bridge.RouteError) × (answer ≡ err e))
  unfolding Bridge.route_message
  route_message-cases ident =
      let runner = Bridge.runner_of outside deps.classify_runner in
      let text = Bridge.text_or_empty message.text in
      let classified = classify runner text deps.allowed_types deps.claude_bin world in
      let payload =
        Bridge.translate message.text classified.0 deps.default_privacy deps.vault_root
          (Bridge.today_from message.captured_at) in
      elim (Result-cases
        (Bridge.call_capture_route outside payload deps.route_mjs deps.node_bin classified.1).0) [
          | inr (e, failed) ↦ inr (e, rw (Bridge.route_message, failed) refl)
          | inl (plan, routed) ↦ inl (record {
            ctype = classified.0;
            plan = plan;
            routable = classify-IsRoutable runner text deps.allowed_types deps.claude_bin world;
            answered = rw (Bridge.route_message, routed) refl;
          })
        ]

  -- Where no entry of the map's list has the sender's channel and user id, the message is skipped,
  -- with nothing run. Otherwise some entry of the list has them, and either an exception is raised,
  -- or the plan is answered under the principal and org of that entry, with a type that is one of the
  -- allowed ones or `unclassifiable`, whatever the classifier printed.
  pub handler_cases :
      deps.by_key ≡ Bridge.principal_map entries
      → let sender = Bridge.sender_of outside deps message in
        let (answer, after) = Bridge.handler outside deps message world in
        (((ident : Bridge.Identity)
            → ¬ IsNamed (sender.channel, sender.channel_user_id) ident entries)
          × ((answer, after) ≡ skip))
        ⊎ ((ident : Bridge.Identity) × IsNamed
              (sender.channel, sender.channel_user_id)
              ident
              entries
            × (IsRouted ident answer ⊎ ((e : Bridge.RouteError) × (answer ≡ err e))))
  unfolding Bridge.handler
  handler_cases mapped =
      let sender = Bridge.sender_of outside deps message in
      elim (Option-cases (Bridge.resolve sender deps.by_key)) [
        | inl unknown ↦ inl (
          resolve-unnamed entries sender (ap (Bridge.resolve sender) (sym mapped) ∙ unknown),
          rw (Bridge.handler, unknown) refl,
        )
        | inr (ident, known) ↦ inr (
          ident,
          resolve-IsNamed entries sender ident (ap (Bridge.resolve sender) (sym mapped) ∙ known),
          rw (Bridge.handler, known) (route_message-cases ident),
        )
      ]
