-- ===== src/Moving/Drive.antt =====
-- The drive of a service after a move: the name that is written down is not the name that is
-- looked up.
use selfprivacy_api.Base.{
  String, ◌≡◌, ◌≢◌, refl, ap, ◌∙◌, inl, inr, true, none, some, List, ◌∷◌, lookup,
  lookup-insert_self, Result, ok, err, Action, bind-ok,
}
use selfprivacy_api.Moving.Volume.{
  BlockDevice, OwnedPath, MovableService, MoveWorld, get_block_device_by_canonical_name,
  get_root_block_device, get_drive,
}
use selfprivacy_api.Moving.Bind.{Bind, Mover, no_such_drive, from_owned_path}
use selfprivacy_api.Moving.Move.{binds_on, lift, binds, do_move_to_volume}
use selfprivacy_api.Moving.Location.{do_move_to_volume-locations}

clash : {A : Type 0} (a : A) (e : String) → ◌≢◌ {A = Result String A} (ok a) (err e)
clash a e h = cc

module _ {R : Type 0} (b : Mover R) (service : MovableService) (volume : BlockDevice) where
  do_move_to_volume-lookup :
      (w w' : MoveWorld R)
      → do_move_to_volume b service volume w ≡ (ok tt, w')
      → lookup service.id w'.locations ≡ some volume.name
  do_move_to_volume-lookup w w' moved =
      elim (do_move_to_volume-locations b service volume w w' (ok tt) moved) [
        | inl (returned, stored) ↦
            ap (lookup service.id) stored ∙ lookup-insert_self service.id volume.name w.locations
        | inr (e, raised, kept) ↦ absurd (clash tt e raised)
      ]

  get_drive-location :
      (w : MoveWorld R) (root : BlockDevice) (name : String)
      → get_root_block_device b.devices ≡ some root
      → service.is_movable ≡ true
      → w.use_binds ≡ true
      → lookup service.id w.locations ≡ some name
      → get_drive b.devices service w ≡ (ok name, w)
  unfolding get_drive
  get_drive-location w root name found movable binding located =
      rw (found, get_drive) (rw (movable, binding, located) refl)

  binds_on-missing :
      (name : String) (p : OwnedPath) (ps : List OwnedPath)
      → get_block_device_by_canonical_name name b.devices ≡ none
      → binds_on b.devices name (p ∷ ps) ≡ err no_such_drive
  unfolding binds_on from_owned_path
  binds_on-missing name p ps missing = rw (missing, binds_on, from_owned_path) refl

  -- After a move that returned, where no device has the name of the volume as its canonical name, a
  -- movable service with folders finds no drive for them any more, on a server that uses binds and
  -- has a root device.
  pub moved_service_loses_drive :
      (w w' : MoveWorld R) (root : BlockDevice) (p : OwnedPath) (ps : List OwnedPath)
      → do_move_to_volume b service volume w ≡ (ok tt, w')
      → w'.use_binds ≡ true
      → service.is_movable ≡ true
      → service.owned_folders ≡ p ∷ ps
      → get_root_block_device b.devices ≡ some root
      → get_block_device_by_canonical_name volume.name b.devices ≡ none
      → binds b service w' ≡ (err no_such_drive, w')
  unfolding binds
  moved_service_loses_drive w w' root p ps moved binding movable folders found missing =
      let of : String → Action (MoveWorld R) String (List Bind) =
        λ drive_name. lift (binds_on b.devices drive_name service.owned_folders) in
      bind-ok (get_drive b.devices service) of (
        get_drive-location w' root volume.name found movable binding
          (do_move_to_volume-lookup w w' moved))
      ∙ ap (λ folders. lift (binds_on b.devices volume.name folders) w') folders
      ∙ ap (λ (r : Result String (List Bind)). lift r w')
          (binds_on-missing volume.name p ps missing)
