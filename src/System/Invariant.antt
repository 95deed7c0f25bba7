-- ===== src/System/Invariant.antt =====
-- What holds in every state that the service reaches.
use gorder.Prelude.{
  ℕ, String, ◌≡◌, refl, sym, ◌∙◌, subst, none, some, Option, [], ◌∷◌, All, All_In, Option-cases,
  arith, inl, inr,
}
use gorder.Prelude.Result.{ok, Status}
use gorder.Prelude.Int.{pos}
use gorder.Metrics.{Metrics}
use gorder.Cache.{Cache, new_cache}
use gorder.Preload.{populate}
use gorder.System.Start.{populate-IsSound}
use gorder.Repository.Errors.{RepoError}
use gorder.Cache.Counter.{IsCounted}
use gorder.Repository.Driver.{Driver, DriverLaws}
use gorder.Repository.Unique.{IsConsistent}
use gorder.Repository.Interface.{repository}
use gorder.Handler.Orders.{App}
use gorder.Consumer.{handle_message, Progress, waiting, consume}
use gorder.Consumer.Received.{View, state, Shows, ShowsAll, receive, receive_all}
use gorder.Consumer.Coherence.{Backed, consume-IsCoherent, IsCoherent}
use gorder.Router.{create_router}
use gorder.Router.Preserves.{serve-Preserves}
use gorder.System.{Process, server, Step, received, answered, Reach, start, step}
use gorder.System.Handlers.{IsSound}
use gorder.System.Routes.{Kept, create_router-Kept}

processed_so_far : (m : Option Metrics) → (n : ℕ) × IsCounted m n
processed_so_far none = (0, tt)
processed_so_far (some m) = (m.orders_processed, refl)

some_inj : {A : Type 0} {a b : A} → some a ≡ some b → a ≡ b
some_inj e = cc

module _ (d : Driver) (laws : DriverLaws d) (capacity : ℕ) (p : Process) where
  abbrev Sound : App d.Db → Type 0
  Sound = IsSound d laws capacity

  view_of : (s : App d.Db) → Sound s → View d.Db
  view_of s sound = record {
    db = s.db;
    orders = sound.orders;
    saved = (processed_so_far s.cache.metrics).0;
  }

  consumed :
      (msg : String) (s : App d.Db) (sound : Sound s)
      → (q : Progress (App d.Db)) × (consume (repository d) p.codec (ok msg ∷ []) s ≡ some q)
        × ShowsAll capacity q
            (receive_all (repository d) p.codec capacity (ok msg ∷ []) (view_of s sound))
        × IsCoherent d laws p.codec capacity
            (state (receive_all (repository d) p.codec capacity (ok msg ∷ []) (view_of s sound)))
  unfolding view_of
  consumed msg s sound =
      consume-IsCoherent d laws p.codec capacity (ok msg ∷ []) s (view_of s sound)
        (record {
          db_lem = refl;
          fits = sound.fits;
          counted = (processed_so_far s.cache.metrics).1;
        })
        (record { consistent = sound.consistent; backed = sound.backed })

  -- One message is a run of `Consume` over one read.
  received-IsSound :
      (msg : String) (s t : App d.Db)
      → handle_message (repository d) p.codec msg s ≡ some t
      → Sound s
      → Sound t
  unfolding consume receive_all
  received-IsSound msg s t e sound =
      let w' = receive (repository d) p.codec capacity msg (view_of s sound) in
      let (q, ran, shown', coherent) = consumed msg s sound in
      let one : consume (repository d) p.codec (ok msg ∷ []) s ≡ some (waiting t) =
        rw (consume, e) refl in
      let same : q ≡ waiting t = some_inj (sym ran ∙ one) in
      let after : Shows capacity t w' = subst (λ x. ShowsAll capacity x (waiting w')) same shown' in
      record {
        orders = w'.orders;
        fits = after.fits;
        backed =
            subst (λ db. All (Backed (d.tables db)) w'.orders) (sym after.db_lem) coherent.backed;
        consistent =
            subst (λ db. IsConsistent (d.tables db)) (sym after.db_lem) coherent.consistent;
      }

  Step-IsSound : (s t : App d.Db) → Step d p s t → Sound s → Sound t
  Step-IsSound s t (answered around route ctx _ _ listed e) sound = subst Sound e (
      serve-Preserves Sound route.chain
        (All_In (Kept d laws capacity p) route (create_router (server d p around))
          (create_router-Kept d laws capacity p around) listed)
        ctx s sound)
  Step-IsSound s t (received msg _ _ e) sound = received-IsSound msg s t e sound

  -- In a sound state no message meets a nil pointer.
  handle_message-total :
      (msg : String) (s : App d.Db)
      → Sound s
      → (t : App d.Db) × (handle_message (repository d) p.codec msg s ≡ some t)
  unfolding consume
  handle_message-total msg s sound =
      let (q, ran, _, _) = consumed msg s sound in
      elim (Option-cases (handle_message (repository d) p.codec msg s)) [
        | inr (t, e) ↦ (t, e)
        | inl e ↦
            let stuck : consume (repository d) p.codec (ok msg ∷ []) s ≡ none =
              rw (consume, e) refl in
            absurd (ground arith)
      ]

  -- From a sound state the service reaches only sound states: whatever messages and requests come, and
  -- in whatever order, the cache stands for orders within its capacity, each of which the database
  -- holds with its customer, and the tables have no UID twice and no part without its order.
  pub Reach-IsSound : (s t : App d.Db) → Reach d p s t → Sound s → Sound t
  Reach-IsSound s t (start _ e) sound = subst Sound e sound
  Reach-IsSound s u (step t _ reached last) sound =
      Step-IsSound t u last (Reach-IsSound s t reached sound)

  -- The service from its start, over consistent tables and with new metrics: `Populate` of the new
  -- cache meets no nil pointer, and whether it succeeds or fails, in every state that is reached from
  -- there by messages and requests in any order the cache stands for orders within its capacity, each
  -- of which the orders table holds with its customer, and the tables have no UID twice and no part
  -- without its order; and the next message, whatever it is, meets no nil pointer either.
  pub started-IsSound :
      (db : d.Db) (ms : Metrics)
      → ms.orders_in_cache ≡ pos 0
      → IsConsistent (d.tables db)
      → (c : Cache) × (status : Status RepoError) × (populate
            (repository d)
            db
            (new_cache capacity (some ms))
          ≡ some (c, status))
        × ((t : App d.Db)
            → Reach d p (record { db = db; cache = c }) t
            → Sound t
              × ((msg : String)
                  → (u : App d.Db) × (handle_message (repository d) p.codec msg t ≡ some u)))
  started-IsSound db ms gauge consistent =
      let (c, status, ran, sound) = populate-IsSound d laws capacity db ms gauge consistent in
      (
        c,
        status,
        ran,
        λ t reached.
            let held = Reach-IsSound (record { db = db; cache = c }) t reached sound in
            (held, λ msg. handle_message-total msg t held),
      )
