-- ===== src/Moving/Location.antt =====
-- What a move writes down about where a service lives.
use selfprivacy_api.Base.{
  String, ◌≡◌, sym, ap, ◌∙◌, inl, inr, ◌⊎◌, Dict, insert, Result-cases, Result, ok, err, Action,
  modify, bind-ok, bind-err,
}
use selfprivacy_api.Moving.Volume.{BlockDevice, MovableService, MoveWorld, set_location}
use selfprivacy_api.Moving.Bind.{Mover}
use selfprivacy_api.Moving.Move.{move_folders, do_move_to_volume}
use selfprivacy_api.Moving.Keeps.{move_folders-Keeps}

module _ {R : Type 0} (b : Mover R) (service : MovableService) (volume : BlockDevice) where
  -- A move that returns writes the volume's name down as the location of the service, and no
  -- other location changes; a move that raises, at whatever step, leaves all locations as they
  -- were.
  pub do_move_to_volume-locations :
      (w w' : MoveWorld R) (r : Result String (Unit {0}))
      → do_move_to_volume b service volume w ≡ (r, w')
      → ((r ≡ ok tt) × (w'.locations ≡ insert service.id volume.name w.locations))
        ⊎ ((e : String) × (r ≡ err e) × (w'.locations ≡ w.locations))
  unfolding do_move_to_volume set_location
  do_move_to_volume-locations w w' r run =
      let result : Result String (Unit {0}) × MoveWorld R → Result String (Unit {0}) = λ q. q.0 in
      let at : Result String (Unit {0}) × MoveWorld R → Dict String = λ q. q.1.locations in
      let before = move_folders b service volume w in
      let finish : Unit {0} → Action (MoveWorld R) String (Unit {0}) =
        λ _. modify (set_location service volume) in
      let kept = move_folders-Keeps b service volume w in
      elim (Result-cases before.0) [
        | inl (u, returned) ↦
            let whole =
              sym run
              ∙ bind-ok (move_folders b service volume) finish {s = w}
                  (ap (λ (x : Result String (Unit {0})). (x, before.1)) returned) in
            inl (
              ap result whole,
              ap at whole ∙ ap (λ (d : Dict String). insert service.id volume.name d) kept,
            )
        | inr (e, raised) ↦
            let whole =
              sym run
              ∙ bind-err (move_folders b service volume) finish {s = w}
                  (ap (λ (x : Result String (Unit {0})). (x, before.1)) raised) in
            inr (e, ap result whole, ap at whole ∙ kept)
      ]
