-- ===== src/Identity/Server/Refines/Runs.antt =====
-- Any sequence of calls, on both stores.
use mathlib.Core.Path.{ap₂}
use islands_kernel.Base.{◌≡◌, refl, List, [], ◌∷◌}
use islands_kernel.Base.Sql.{Engine, IsLawful, Json, IsFaithful}
use islands_kernel.Identity.Store
use islands_kernel.Identity.Store.{IdentityStore}
use islands_kernel.Identity.Store.Invariant.{IsValid, IsValid-empty, Call, perform, perform-IsValid}
use islands_kernel.Identity.Server
use islands_kernel.Identity.Server.{ServerIdentityStore}
use islands_kernel.Identity.Server.Calls.{run_memory, on_server, run_server}
use islands_kernel.Identity.Server.Refines.Tables.{Implements, create_store-Implements}
use islands_kernel.Identity.Server.Refines.Steps.{perform-Simulates}
use islands_kernel.Identity.Server.Refines.Reads.{Agrees, Implements-Agrees}

module _ (db : Engine) (law : IsLawful db) (json : Json) (faithful : IsFaithful json) where
  runs_agree :
      (calls : List Call) (s : ServerIdentityStore db json) (m : IdentityStore)
      → Implements db law json faithful s m
      → IsValid m
      → ((run_server db json calls s).0 ≡ (run_memory calls m).0)
        × Agrees db law json faithful (run_server db json calls s).1 (run_memory calls m).1
  unfolding run_server run_memory
  runs_agree [] s m h v = (refl, Implements-Agrees db law json faithful s m h v)
  runs_agree (c ∷ calls) s m h v =
      let (same, next) = perform-Simulates db law json faithful s m h c in
      let (answers, reads) =
        runs_agree calls (on_server db json c s).1 (perform c m) next (perform-IsValid c m v) in
      (ap₂ (λ a as'. a ∷ as') same answers, reads)

  -- The store on SQLite implements the store in memory: after any sequence of calls on a new store
  -- of each kind, every call has answered the same. Every read by a key gives the same row or none;
  -- every listing has the same elements, and a principal's log the same entries as often; a search
  -- by email, by audience or for a principal's link finds nothing in both, or in each a row that
  -- passes the search.
  pub server_store_refines :
      (calls : List Call)
      → let (answers, s) = run_server db json calls (Server.create_store db json) in
        let (answers', m) = run_memory calls Store.empty in
        (answers ≡ answers') × Agrees db law json faithful s m
  server_store_refines calls =
      runs_agree calls (Server.create_store db json) Store.empty
        (create_store-Implements db law json faithful) IsValid-empty
