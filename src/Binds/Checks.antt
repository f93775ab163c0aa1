-- ===== src/Binds/Checks.antt =====
-- What was checked before anything was changed.
use selfprivacy_api.Binds.Config.{config_devices, BindMigrationConfig}
use Prim.Native.String.{◌++◌ as str_append}
use selfprivacy_api.Binds.Migrate.{
  Problem, required_devices, unmounted_device, volume_problem, device_not_found, failed_for,
  mount_of, absent_device,
}
use selfprivacy_api.Moving.Volume.{get_block_device_by_canonical_name, BlockDevice}
use mathlib.Core.Path.{subst}
use selfprivacy_api.Base.{
  false, Bool, Option-cases, ◌||◌, refl, [], inl, inr, none, some, true, ◌∷◌, Bool-cases, eq_iff,
  arith, ◌⊎◌, str_eq, map, ◌≡◌, Option, String, str_mem, ◌≢◌, List,
}

module _ (devices : List BlockDevice) where
  -- The device is the root partition or is mounted at its place.
  abbrev pub Mounted : String → Type 0
  Mounted device =
      (str_eq device "sda1" ≡ true)
      ⊎ ((d : BlockDevice) × (get_block_device_by_canonical_name device devices ≡ some d)
          × (str_mem (str_append "/volumes/" device) d.mountpoints ≡ true))

  abbrev pub Available : String → Type 0
  Available device =
      (str_mem device (map (λ (d : BlockDevice). d.canonical_name) devices) ≡ true) × Mounted device

  some-ne-none : (u : Problem) → ◌≢◌ {A = Option Problem} (some u) none
  some-ne-none u e = cc

  absent_device-none :
      (names xs : List String) (x : String)
      → absent_device names xs ≡ none
      → str_mem x xs ≡ true
      → str_mem x names ≡ true
  unfolding absent_device str_mem
  absent_device-none names [] x h m = cc
  absent_device-none names (y ∷ ys) x h m = ground (
    arith,
    eq_iff y x,
    absent_device-none names ys x,
    some-ne-none (failed_for device_not_found y),
  )

  mount_of-none :
      (o : Option BlockDevice) (device : String)
      → mount_of o device ≡ none
      → (d : BlockDevice) × (o ≡ some d)
        × (str_mem (str_append "/volumes/" device) d.mountpoints ≡ true)
  mount_of-none none device h = absurd (some-ne-none _ h)
  mount_of-none (some d) device h =
      elim (Bool-cases (str_mem (str_append "/volumes/" device) d.mountpoints)) [
        | inl there ↦ (d, refl, there)
        | inr missing ↦ absurd (some-ne-none _ (rw missing at h))
      ]

  unmounted_device-head :
      (x : String) (xs : List String)
      → unmounted_device devices (x ∷ xs) ≡ none
      → Mounted x × (unmounted_device devices xs ≡ none)
  unfolding unmounted_device
  unmounted_device-head x xs h = elim (Bool-cases (str_eq x "sda1")) [
    | inl root ↦ (inl root, rw root at h)
    | inr more ↦
        let o = get_block_device_by_canonical_name x devices in
        elim (Option-cases (mount_of o x)) [
          | inl found ↦ (inr (mount_of-none o x found), rw (more, found) at h)
          | inr (u, problem) ↦ absurd (some-ne-none u (rw (more, problem) at h))
        ]
  ]

  unmounted_device-none :
      (xs : List String) (x : String)
      → unmounted_device devices xs ≡ none
      → str_mem x xs ≡ true
      → Mounted x
  unfolding str_mem
  unmounted_device-none [] x h m = cc
  unmounted_device-none (y ∷ ys) x h m =
      let (first, later) = unmounted_device-head y ys h in
      elim (Bool-cases (str_eq y x)) [
        | inl same ↦ subst Mounted ((eq_iff y x).0 same) first
        | inr unlike ↦ unmounted_device-none ys x later (rw unlike at m)
      ]

  required_devices_complete :
      (xs seen : List String) (x : String)
      → str_mem x xs ≡ true
      → (str_mem x (required_devices xs seen) || str_mem x seen) ≡ true
  unfolding required_devices str_mem
  required_devices_complete [] seen x m = cc
  required_devices_complete (y ∷ ys) seen x m = elim (Bool-cases (str_mem y seen)) [
    | inl old ↦ ground (arith, eq_iff y x, required_devices_complete ys seen x)
    | inr new ↦ ground (arith, eq_iff y x, required_devices_complete ys (y ∷ seen) x)
  ]

  or_false : (b : Bool) → (b || false) ≡ true → b ≡ true
  or_false b h = ground arith

  -- Where the checks of the volumes find nothing wrong, every configured device is available.
  pub volume_problem-none :
      (c : BindMigrationConfig) (x : String)
      → volume_problem devices c ≡ none
      → str_mem x (config_devices c) ≡ true
      → Available x
  unfolding volume_problem str_mem
  volume_problem-none c x h m =
      let required = required_devices (config_devices c) [] in
      let names = map (λ (d : BlockDevice). d.canonical_name) devices in
      let listed : str_mem x required ≡ true =
        or_false (str_mem x required) (required_devices_complete (config_devices c) [] x m) in
      elim (Option-cases (absent_device names required)) [
        | inl present ↦ (
          absent_device-none names required x present listed,
          unmounted_device-none required x (rw (volume_problem, present) at h) listed,
        )
        | inr (u, problem) ↦ absurd (some-ne-none u (rw (volume_problem, problem) at h))
      ]
