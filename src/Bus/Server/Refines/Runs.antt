-- ===== src/Bus/Server/Refines/Runs.antt =====
-- Any sequence of calls, on both ledgers.
use mathlib.Core.Path.{ap₂}
use islands_kernel.Base.{
  ℕ, String, ◌≡◌, refl, Bool, true, List, [], ◌∷◌, Option-cases, inl, inr, string_eq, arith,
}
use islands_kernel.Base.Dict.{lookup}
use islands_kernel.Base.Sql.{Engine, IsLawful, Json, IsFaithful}
use islands_kernel.Bus.Model.{Event, Subscription, Delivery, EventContract}
use islands_kernel.Bus.Ledger
use islands_kernel.Bus.Ledger.{Ledger}
use islands_kernel.Bus.Ledger.Keyed.{
  IsSound, record_event-IsSound, put_subscription-IsSound, delete_subscription-IsSound,
  put_delivery-IsSound, put_contract-IsSound,
}
use islands_kernel.Bus.Server
use islands_kernel.Bus.Server.{ServerLedger}
use islands_kernel.Bus.Server.Refines.Steps.{
  Implements, Simulates, create_ledger-Implements, record_event-Simulates,
  put_subscription-Implements, delete_subscription-Implements, put_delivery-Implements,
  put_contract-Implements, acquire_lease-Simulates, release_lease-Implements,
}
use islands_kernel.Bus.Server.Refines.Reads.{Agrees, Implements-Agrees}

-- The calls that write. All but two answer nothing, for which `true` stands.
pub data LedgerCall : Type 0 where
  record_event : Event → LedgerCall
  put_subscription : Subscription → LedgerCall
  delete_subscription : String → LedgerCall
  put_delivery : Delivery → LedgerCall
  put_contract : EventContract → LedgerCall
  acquire_lease : String → String → ℕ → ℕ → LedgerCall
  release_lease : String → String → LedgerCall

unfoldable pub in_memory : LedgerCall → Ledger → Bool × Ledger
in_memory (record_event event) l = Ledger.record_event event l
in_memory (put_subscription sub) l = (true, Ledger.put_subscription sub l)
in_memory (delete_subscription sub_id) l = (true, Ledger.delete_subscription sub_id l)
in_memory (put_delivery d) l = (true, Ledger.put_delivery d l)
in_memory (put_contract c) l = (true, Ledger.put_contract c l)
in_memory (acquire_lease key holder until now) l = Ledger.acquire_lease key holder until now l
in_memory (release_lease key holder) l = (true, Ledger.release_lease key holder l)

unfoldable pub run_memory : List LedgerCall → Ledger → List Bool × Ledger
run_memory [] l = ([], l)
run_memory (c ∷ calls) l =
    let (answer, l') = in_memory c l in
    let (answers, last) = run_memory calls l' in (answer ∷ answers, last)

in_memory-IsSound : (c : LedgerCall) (l : Ledger) → IsSound l → IsSound (in_memory c l).1
unfolding in_memory Ledger.acquire_lease Ledger.release_lease
in_memory-IsSound (record_event event) l v = record_event-IsSound event l v
in_memory-IsSound (put_subscription sub) l v = put_subscription-IsSound sub l v
in_memory-IsSound (delete_subscription sub_id) l v = delete_subscription-IsSound sub_id l v
in_memory-IsSound (put_delivery d) l v = put_delivery-IsSound d l v
in_memory-IsSound (put_contract c) l v = put_contract-IsSound c l v
in_memory-IsSound (acquire_lease key holder until now) l v = ground arith
in_memory-IsSound (release_lease key holder) l v = elim (Option-cases (lookup key l.leases)) [
  | inl absent ↦ rw (absent, Ledger.release_lease) v
  | inr (cur, there) ↦ ground (arith, there)
]

module _ (db : Engine) (json : Json) where
  unfoldable pub on_server : LedgerCall → ServerLedger db json → Bool × ServerLedger db json
  on_server (record_event event) s = Server.record_event db json event s
  on_server (put_subscription sub) s = (true, Server.put_subscription db json sub s)
  on_server (delete_subscription sub_id) s = (true, Server.delete_subscription db json sub_id s)
  on_server (put_delivery d) s = (true, Server.put_delivery db json d s)
  on_server (put_contract c) s = (true, Server.put_contract db json c s)
  on_server (acquire_lease key holder until now) s =
      Server.acquire_lease db json key holder until now s
  on_server (release_lease key holder) s = (true, Server.release_lease db json key holder s)

  unfoldable pub run_server :
      List LedgerCall → ServerLedger db json → List Bool × ServerLedger db json
  run_server [] s = ([], s)
  run_server (c ∷ calls) s =
      let (answer, s') = on_server c s in
      let (answers, last) = run_server calls s' in (answer ∷ answers, last)

module _ (db : Engine) (law : IsLawful db) (json : Json) (faithful : IsFaithful json) where
  on_server-Simulates :
      (c : LedgerCall) (s : ServerLedger db json) (l : Ledger)
      → Implements db law json faithful s l
      → Simulates db law json faithful (on_server db json c s) (in_memory c l)
  unfolding on_server in_memory
  on_server-Simulates (record_event event) s l h =
      record_event-Simulates db law json faithful s l h event
  on_server-Simulates (put_subscription sub) s l h =
      (refl, put_subscription-Implements db law json faithful s l h sub)
  on_server-Simulates (delete_subscription sub_id) s l h =
      (refl, delete_subscription-Implements db law json faithful s l h sub_id)
  on_server-Simulates (put_delivery d) s l h =
      (refl, put_delivery-Implements db law json faithful s l h d)
  on_server-Simulates (put_contract c) s l h =
      (refl, put_contract-Implements db law json faithful s l h c)
  on_server-Simulates (acquire_lease key holder until now) s l h =
      acquire_lease-Simulates db law json faithful s l h key holder until now
  on_server-Simulates (release_lease key holder) s l h =
      (refl, release_lease-Implements db law json faithful s l h key holder)

  runs_agree :
      (calls : List LedgerCall) (s : ServerLedger db json) (l : Ledger)
      → Implements db law json faithful s l
      → IsSound l
      → ((run_server db json calls s).0 ≡ (run_memory calls l).0)
        × Agrees db law json faithful (run_server db json calls s).1 (run_memory calls l).1
  unfolding run_server run_memory
  runs_agree [] s l h v = (refl, Implements-Agrees db law json faithful s l h v)
  runs_agree (c ∷ calls) s l h v =
      let (same, next) = on_server-Simulates c s l h in
      let (answers, reads) =
        runs_agree calls (on_server db json c s).1 (in_memory c l).1 next
          (in_memory-IsSound c l v) in
      (ap₂ (λ a as'. a ∷ as') same answers, reads)

  -- The ledger on SQLite implements the ledger in memory: after any sequence of calls on a new
  -- ledger of each kind, every call has answered the same, and every read by a key gives the same
  -- row or none, and every listing the same elements.
  pub server_ledger_refines :
      (calls : List LedgerCall)
      → let (answers, s) = run_server db json calls (Server.create_ledger db json) in
        let (answers', l) = run_memory calls Ledger.empty in
        (answers ≡ answers') × Agrees db law json faithful s l
  server_ledger_refines calls =
      runs_agree calls (Server.create_ledger db json) Ledger.empty
        (create_ledger-Implements db law json faithful)
        (record { events = tt; subs = tt; deliveries = tt; contracts = tt })
