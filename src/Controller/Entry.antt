-- ===== src/Controller/Entry.antt =====
-- `Reconcile` of controllers/resourcelimiter_controller.go, the method that the manager calls for
-- each request. Its result is always empty, so a run has an error or none.
pub mod Pass
pub mod Converges
pub mod Unregistered
pub mod Ignored
pub mod Announces
use resourcelimiter.Prelude.{String, Option, none, some, if◌then◌else◌}
use resourcelimiter.Api.Constants.{default_finalizer}
use resourcelimiter.Api.V1beta2.{ResourceLimiter}
use resourcelimiter.Controller.Exec.{Exec, pure, handle, raise, ◌>>=◌, ◌>>◌}
use resourcelimiter.Controller.Platform.{Quantities, Client, NamespacedName}
use resourcelimiter.Controller.Reconcile.{reconcile}
use resourcelimiter.Controller.Deletion.{reconcile_delete}

-- The two objects of the method: `rl`, and `newrl`, a deep copy of it, with pointers to them.
pub record Objects : Type 0 where
  pub rl : ResourceLimiter
  pub newrl : ResourceLimiter

pub data Pointer : Type 0 where
  to_rl to_newrl : Pointer

abbrev deref : Pointer → Objects → ResourceLimiter
deref to_rl o = o.rl
deref to_newrl o = o.newrl

-- `client.MergeFrom(obj)` keeps the pointer, and reads the object when the patch is sent.
pub record MergeFrom : Type 0 where
  pub from : Pointer

module _ (Q : Quantities) (C : Client Q.Quantity) where
  open C use {State, get_limiter, patch_limiter, contains_finalizer, add_finalizer}

  abbrev pub add_to_newrl : Objects → Objects
  add_to_newrl o = record o {
    newrl = record o.newrl {
      object_meta = record o.newrl.object_meta {
        finalizers = add_finalizer o.newrl.object_meta.finalizers default_finalizer;
      };
    };
  }

  -- `patch := client.MergeFrom(newrl)`, then `AddFinalizer(newrl)`, then `Patch(newrl, patch)`.
  pub register_finalizer : Objects → Exec State (Unit {0})
  register_finalizer objects =
      let patch : MergeFrom = record { from = to_newrl } in
      let objects' = add_to_newrl objects in
      patch_limiter (deref patch.from objects') (deref to_newrl objects')

  -- Up to the second `Get`: the object that the rest of the method works with.
  pub ensure_finalizer : NamespacedName → ResourceLimiter → Exec State ResourceLimiter
  ensure_finalizer req rl =
      if contains_finalizer rl.object_meta.finalizers default_finalizer
      then pure rl
      else (do register_finalizer (record { rl = rl; newrl = rl }); get_limiter req)

  abbrev dispatch : Option String → ResourceLimiter → Exec State (Unit {0})
  dispatch none rl = reconcile Q C rl
  dispatch (some deleted_at) rl = reconcile_delete C rl

  unfoldable pub reconcile_request : NamespacedName → Exec State (Unit {0})
  unfolding register_finalizer ensure_finalizer
  reconcile_request req = do
    rl ← get_limiter req
    rl' ← ensure_finalizer req rl
    dispatch rl'.object_meta.deletion_timestamp rl'
