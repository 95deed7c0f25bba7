-- ===== src/System/Routes.antt =====
-- Each route of `createRouter` of internal/app/app.go keeps the state sound.
use gorder.Prelude.{◌&◌, ℕ, String, refl, List, [], ◌∷◌, All}
use gorder.Http.{Handler}
use gorder.Repository.Driver.{Driver, DriverLaws}
use gorder.Repository.Interface.{repository}
use gorder.Handler.Orders.{App, get_all_orders_uid_handle, get_all_user_orders_uid_handle}
use gorder.Handler.Pages.{all_orders_page_handle}
use gorder.Handler.Silent.{
  IsSilent, ready_check_handle-IsSilent, get_all_orders_uid_handle-IsSilent,
  get_all_user_orders_uid_handle-IsSilent, all_orders_page_handle-IsSilent, login_handle-IsSilent,
  refresh_handle-IsSilent,
}
use gorder.Router.{Route, handler, group, create_router}
use gorder.Router.Preserves.{
  Preserves, Passes, handler-Passes, jwt_auth-Passes, require_role-Passes, rate_limit-Passes,
}
use gorder.System.{Process, Surroundings, server}
use gorder.System.Handlers.{
  IsSound, silent-Preserves, get_order_by_uid_handle-Preserves,
  get_user_order_by_uid_handle-Preserves, order_page_handle-Preserves, register_handle-Preserves,
}

module _ (d : Driver) (laws : DriverLaws d) (capacity : ℕ) (p : Process) where
  abbrev Sound : App d.Db → Type 0
  Sound = IsSound d laws capacity

  abbrev pub Kept : Route (App d.Db) → Type 0
  Kept route = All (Passes Sound) route.chain

  silent : (h : Handler (App d.Db)) → IsSilent h → Passes Sound (handler h)
  silent h k = handler-Passes Sound h (silent-Preserves d laws capacity h k)

  grouped :
      (roles : List String) (h : Handler (App d.Db)) (around : Surroundings)
      → Preserves Sound h
      → All (Passes Sound) (group (server d p around) roles h)
  grouped roles h around k =
      jwt_auth-Passes Sound p.j p.secret
      & require_role-Passes Sound roles
      & handler-Passes Sound h k
      & tt

  -- Each route of the router keeps the state sound.
  pub create_router-Kept : (around : Surroundings) → All Kept (create_router (server d p around))
  unfolding create_router
  create_router-Kept around =
      let r = repository d in
      let j = p.j in
      let b = p.b in
      let k = p.secret in
      let user = "user" ∷ [] in
      let admin = "admin" ∷ [] in
      let both = "user" ∷ "admin" ∷ [] in
      let quiet = silent-Preserves d laws capacity in
      let limited = rate_limit-Passes Sound (server d p around).limit (λ ip s sound. sound) in
      (silent _ (λ ctx s. refl), tt)
      & (silent _ (ready_check_handle-IsSilent r around.check_health around.finish), tt)
      & (silent _ (λ ctx s. refl), tt)
      & (silent _ (λ ctx s. refl), tt)
      & (
        limited,
        (silent _ (λ ctx. login_handle-IsSilent r j b k (around.bodies.login ctx) ctx), tt),
      )
      & (silent _ (λ ctx s. refl), tt)
      & (silent _ (λ ctx s. refl), (limited, tt))
      & (
        handler-Passes Sound _
            (λ ctx. register_handle-Preserves d laws capacity j b k (around.bodies.login ctx) ctx),
        tt,
      )
      & (
        limited,
        (silent _ (λ ctx. refresh_handle-IsSilent r j b k (around.bodies.refresh ctx) ctx), tt),
      )
      & grouped both _ around (quiet (all_orders_page_handle r) (all_orders_page_handle-IsSilent r))
      & grouped both _ around (order_page_handle-Preserves d laws capacity)
      & grouped admin _ around (get_order_by_uid_handle-Preserves d laws capacity)
      & grouped admin _ around
          (quiet (get_all_orders_uid_handle r) (get_all_orders_uid_handle-IsSilent r))
      & grouped user _ around (get_user_order_by_uid_handle-Preserves d laws capacity)
      & grouped user _ around
          (quiet (get_all_user_orders_uid_handle r) (get_all_user_orders_uid_handle-IsSilent r))
      & tt
