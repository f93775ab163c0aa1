-- ===== src/Flake/Tests.antt =====
-- The theorem on the flake inputs at concrete inputs.
use selfprivacy_api.Base.{◌≡◌, refl, [], ◌∷◌, lookup}
use selfprivacy_api.Flake.Inputs.{
  strip_prefix, service_input, FlakeServiceManager, split_inputs, join_inputs,
}
use selfprivacy_api.Flake.RoundTrip.{split-join_inputs}

abbrev manager : FlakeServiceManager
manager = record {
  inputs = ("selfprivacy-nixos-config", service_input "git+https://example.org/config") ∷ [];
  services = ("gitea", "path:gitea") ∷ ("matrix", "path:matrix") ∷ [];
}

split-join_inputs_example : split_inputs (join_inputs manager.services manager.inputs) ≡ manager
unfolding strip_prefix lookup
split-join_inputs_example = split-join_inputs manager (refl, tt) (refl, (refl, tt))
