-- ===== src/Capture/Bridge.antt =====
-- capture_bridge/principal_map.py, translate.py, route_caller.py and bridge.py. A dict is a record of
-- the keys that the code reads, each of them missing or there; `UserId` is the type of a channel's own
-- user ids.
use islands_kernel.Base.{
  ℕ, String, Option, none, some, List, [], ◌∷◌, Result, ok, err, Eq, string_eq, option_eq, pair_eq,
  if◌then◌else◌, leb, Bool, true, false,
}
use islands_kernel.Base.Dict.{Dict, lookup, insert}
use islands_kernel.Bus.TypeMatch.{same_code}
use islands_kernel.Capture.Classify.{Finished, Run, Runner, default_runner, classify}

pub record Identity : Type 0 where
  pub principal : String
  pub org : String

pub record Entry (UserId : Type 0) : Type 0 where
  pub channel : String
  pub channel_user_id : UserId
  pub principal : String
  pub org : String

pub record Sender (UserId : Type 0) : Type 0 where
  pub channel : Option String
  pub channel_user_id : Option UserId

-- The data of an event.
pub record Message (UserId : Type 0) : Type 0 where
  pub text : Option String
  pub sender : Option (Sender UserId)
  pub captured_at : Option String

pub record Thought : Type 0 where
  pub text : String
  pub type : String
  pub privacy : String

pub record Payload : Type 0 where
  pub start_path : String
  pub today : String
  pub thoughts : List Thought

-- What lies outside: processes, `json.dumps` of a payload, and `json.loads` of an output, which gives
-- the value of "plan", if it has one, or nothing where the text is no JSON.
pub record Outside : Type 1 where
  pub World : Type 0
  pub Plan : Type 0
  pub run : Run World
  pub dumps : Payload → String
  pub loads : String → Option (Option Plan)
  pub no_plan : Plan

-- `text or ""` for a missing text
abbrev pub text_or_empty : Option String → String
text_or_empty none = ""
text_or_empty (some t) = t

abbrev characters : String → ℕ
characters String.[] = 0
characters (String.◌∷◌ c s) = Prim.Native.Nat.suc (characters s)

-- `s[:n]`
abbrev first : ℕ → String → String
first Prim.Native.Nat.zero s = ""
first (Prim.Native.Nat.suc n) String.[] = ""
first (Prim.Native.Nat.suc n) (String.◌∷◌ c s) = String.◌∷◌ c (first n s)

-- The day of `captured_at`, if it is given.
unfoldable pub today_from : Option String → String
today_from captured_at =
    let captured = text_or_empty captured_at in
    if leb 10 (characters captured) then first 10 captured else "1970-01-01"

-- `translate`, of the message's text.
unfoldable pub translate : Option String → String → String → String → String → Payload
translate text type privacy vault_root today = record {
  start_path = vault_root;
  today = today;
  thoughts = record { text = text_or_empty text; type = type; privacy = privacy } ∷ [];
}

pub data RouteError : Type 0 where
  not_run failed unparseable : RouteError

abbrev pub Key : Type 0 → Type 0
Key UserId = Option String × Option UserId

module _ {UserId : Type 0} ⦃eq : Eq UserId⦄ where
  abbrev pub key_of : Entry UserId → Key UserId
  key_of e = (some e.channel, some e.channel_user_id)

  abbrev pub identity_of : Entry UserId → Identity
  identity_of e = record { principal = e.principal; org = e.org }

  -- The dict comprehension: a later entry of the same key replaces an earlier one.
  unfoldable pub add_entries :
      Dict (Key UserId) Identity → List (Entry UserId) → Dict (Key UserId) Identity
  add_entries d [] = d
  add_entries d (e ∷ es) = add_entries (insert (key_of e) (identity_of e) d) es

  -- `PrincipalMap(entries)._by_key`
  unfoldable pub principal_map : List (Entry UserId) → Dict (Key UserId) Identity
  unfolding add_entries
  principal_map entries = add_entries [] entries

  unfoldable pub resolve : Sender UserId → Dict (Key UserId) Identity → Option Identity
  resolve sender by_key = lookup (sender.channel, sender.channel_user_id) by_key

-- What the handler returns, without the reason, a text for a reader. `plan` of a skipped event is the
-- empty list.
pub record Handled (Plan : Type 0) : Type 0 where
  pub principal : Option String
  pub org : Option String
  pub type : Option String
  pub plan : Plan
  pub skipped : Bool

module _ (outside : Outside) where
  -- `result.get("plan", [])` is read here.
  unfoldable pub read_plan : Option Finished → Result RouteError outside.Plan
  read_plan none = err not_run
  read_plan (some proc) =
      if same_code proc.returncode 0
      then elim (outside.loads proc.stdout) [
        | none ↦ err unparseable
        | some none ↦ ok outside.no_plan
        | some (some plan) ↦ ok plan
      ]
      else err failed

  unfoldable pub call_capture_route :
      Payload → String → String → outside.World → Result RouteError outside.Plan × outside.World
  unfolding read_plan
  call_capture_route payload route_mjs node_bin world =
      let (proc, after) =
        outside.run (node_bin ∷ route_mjs ∷ outside.dumps payload ∷ []) "" world in
      (read_plan proc, after)

  pub record BridgeDeps (UserId : Type 0) ⦃eq : Eq UserId⦄ : Type 0 where
    pub by_key : Dict (Key UserId) Identity
    pub allowed_types : List String
    pub claude_bin : String
    pub route_mjs : String
    pub vault_root : String
    pub default_privacy : String
    pub classify_runner : Option (Runner outside.World)
    pub node_bin : String

  -- `runner or _default_runner`
  unfoldable pub runner_of : Option (Runner outside.World) → Runner outside.World
  unfolding default_runner
  runner_of none = default_runner outside.run
  runner_of (some runner) = runner

  module _ {UserId : Type 0} ⦃eq : Eq UserId⦄ (deps : BridgeDeps UserId) where
    -- The sender of the data, or an empty one.
    abbrev pub sender_of : Message UserId → Sender UserId
    sender_of data_ = elim data_.sender [
      | none ↦ record { channel = none; channel_user_id = none }
      | some sender ↦ sender
    ]

    -- What follows once the sender is known.
    unfoldable pub route_message :
        Identity
        → Message UserId
        → outside.World
        → Result RouteError (Handled outside.Plan) × outside.World
    unfolding classify call_capture_route translate today_from runner_of
    route_message ident message world =
        let (ctype, classified) =
          classify (runner_of deps.classify_runner) (text_or_empty message.text) deps.allowed_types
            deps.claude_bin world in
        let payload =
          translate message.text ctype deps.default_privacy deps.vault_root
            (today_from message.captured_at) in
        let (result, after) = call_capture_route payload deps.route_mjs deps.node_bin classified in
        (
          elim result [
            | err e ↦ err e
            | ok plan ↦ ok (record {
              principal = some ident.principal;
              org = some ident.org;
              type = some ctype;
              plan = plan;
              skipped = false;
            })
          ],
          after,
        )

    -- `handler(event)`, on `event.data or {}`.
    unfoldable pub handler :
        Message UserId → outside.World → Result RouteError (Handled outside.Plan) × outside.World
    unfolding resolve route_message
    handler message world = elim (resolve (sender_of message) deps.by_key) [
      | none ↦ (
        ok (record {
          principal = none;
          org = none;
          type = none;
          plan = outside.no_plan;
          skipped = true;
        }),
        world,
      )
      | some ident ↦ route_message ident message world
    ]
