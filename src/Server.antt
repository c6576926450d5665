-- ===== src/Server.antt =====
-- src/server.rs: the service interface, the hook around a service, and the context that carries the
-- slave id. A service may change its state: a call takes the state and returns it.
mod Runs
pub mod Process
pub mod Laws
use oms_modbus.Base.{ℕ, List, Option, none, some, Result, ok, err}
use oms_modbus.Frame.Types.{Request, Response, Exception}

-- `Service::call`, with the task-local `SLAVE_ID` as an argument: `none` where it is not set.
abbrev pub Service : Type 0 → Type 0
Service S = Option ℕ → Request → S → Result Response Exception × S

-- `ServerHook`, with the hook's own state.
pub record ServerHook (H : Type 0) : Type 0 where
  pub before_call : ℕ → Request → H → Option Response × H
  pub after_call : ℕ → Result Response Exception → H → Result Response Exception × H

-- The default methods of the trait.
unfoldable pub default_hook : {H : Type 0} → ServerHook H
default_hook = record { before_call = λ slave req h. (none, h); after_call = λ slave r h. (r, h) }

abbrev pub slave_or_unset : Option ℕ → ℕ
slave_or_unset none = 0xff
slave_or_unset (some id) = id

-- `HookedService::call`
unfoldable pub hooked_call : {S H : Type 0} → Service S → ServerHook H → Service (S × H)
hooked_call inner hook ctx req (s, h) =
    let slave = slave_or_unset ctx in
    let (short, h') = hook.before_call slave req h in
    elim short [
      | some rsp ↦ (ok rsp, (s, h'))
      | none ↦
          let (result, s') = inner ctx req s in
          let (result', h'') = hook.after_call slave result h' in (result', (s', h''))
    ]
