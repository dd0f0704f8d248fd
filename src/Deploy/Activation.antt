-- ===== src/Deploy/Activation.antt =====
-- Every step of the deploy manager keeps what Deploy/Warm states of its jobs and activations.
use birdman.Base.{nat_eq}
use birdman.Deploy.Warm.{Warm}
