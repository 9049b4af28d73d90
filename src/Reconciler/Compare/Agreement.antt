-- ===== src/Reconciler/Compare/Agreement.antt =====
-- `statefulSetNeedsUpdate` against what two StatefulSets must agree on.
use kind_music_streaming.Prelude.{
  ◌≡◌, refl, ◌↔◌, true, false, some, List, [], ◌∷◌, length, arith, deep_equal-eq, eq_iff, ◌==◌,
}
use kind_music_streaming.Prelude.Int.{ℤ, eqb_ℤ-eq}
use kind_music_streaming.Kube.{
  Container, PodSpec, StatefulSet, containers_discrete, volumes_discrete, resources_discrete,
  env_discrete, mounts_discrete, ports_discrete, probe_discrete,
}
use kind_music_streaming.Exec.{ok}
use kind_music_streaming.Reconciler.Compare.{
  container_differs, containers_differ, pods_differ, stateful_set_needs_update,
}

-- Two containers agree on the seven fields that decide whether pods are replaced.
pub record ContainerAgrees (a b : Container) : Type 0 where
  pub image : a.image ≡ b.image
  pub resources : a.resources ≡ b.resources
  pub env : a.env ≡ b.env
  pub volume_mounts : a.volume_mounts ≡ b.volume_mounts
  pub ports : a.ports ≡ b.ports
  pub readiness_probe : a.readiness_probe ≡ b.readiness_probe
  pub liveness_probe : a.liveness_probe ≡ b.liveness_probe

-- The lists have one length and agree container by container.
abbrev pub ContainersAgree : List Container → List Container → Type 0
ContainersAgree [] [] = Unit
ContainersAgree (a ∷ more) (b ∷ rest) = ContainerAgrees a b × ContainersAgree more rest
ContainersAgree _ _ = ⊥

pub record PodsAgree (a b : PodSpec) : Type 0 where
  pub init_containers : a.init_containers ≡ b.init_containers
  pub volumes : a.volumes ≡ b.volumes
  pub containers : ContainersAgree a.containers b.containers

container_differs_iff : (a b : Container) → (container_differs a b ≡ false) ↔ ContainerAgrees a b
unfolding container_differs
container_differs_iff a b = ground (
  arith,
  eq_iff a.image b.image,
  deep_equal-eq resources_discrete a.resources b.resources,
  deep_equal-eq env_discrete a.env b.env,
  deep_equal-eq mounts_discrete a.volume_mounts b.volume_mounts,
  deep_equal-eq ports_discrete a.ports b.ports,
  deep_equal-eq probe_discrete a.readiness_probe b.readiness_probe,
  deep_equal-eq probe_discrete a.liveness_probe b.liveness_probe,
)

containers_differ_iff :
    (xs ys : List Container)
    → (((length xs == length ys) ≡ true) × (containers_differ xs ys ≡ false))
      ↔ ContainersAgree xs ys
unfolding containers_differ
containers_differ_iff [] [] = ground arith
containers_differ_iff (a ∷ more) (b ∷ rest) =
    ground (arith, container_differs_iff a b, containers_differ_iff more rest)
containers_differ_iff [] (_ ∷ _) = ground arith
containers_differ_iff (_ ∷ _) [] = ground arith

pods_differ_iff : (a b : PodSpec) → (pods_differ a b ≡ false) ↔ PodsAgree a b
unfolding pods_differ
pods_differ_iff a b = ground (
  arith,
  deep_equal-eq containers_discrete a.init_containers b.init_containers,
  deep_equal-eq volumes_discrete a.volumes b.volumes,
  containers_differ_iff a.containers b.containers,
)

-- For sets with a number of replicas, no update is needed exactly when the numbers are equal and
-- the pods agree: in their init containers, their volumes, and container by container in image,
-- resources, environment, mounts, ports and both probes.
pub stateful_set_needs_update_iff :
    (current desired : StatefulSet) (have want : ℤ)
    → current.spec.replicas ≡ some have
    → desired.spec.replicas ≡ some want
    → (stateful_set_needs_update current desired ≡ ok false)
      ↔ ((have ≡ want) × PodsAgree current.spec.template.spec desired.spec.template.spec)
unfolding stateful_set_needs_update
stateful_set_needs_update_iff current desired have want h w = ground (
  arith,
  eqb_ℤ-eq have want,
  pods_differ_iff current.spec.template.spec desired.spec.template.spec,
)

ContainersAgree-refl : (xs : List Container) → ContainersAgree xs xs
ContainersAgree-refl [] = tt
ContainersAgree-refl (a ∷ more) = (ground arith, ContainersAgree-refl more)

-- A StatefulSet that was given the desired spec needs no further update.
pub needs_update_settled :
    (sts desired : StatefulSet) (want : ℤ)
    → desired.spec.replicas ≡ some want
    → stateful_set_needs_update (record sts { spec = desired.spec }) desired ≡ ok false
needs_update_settled sts desired want w =
    (stateful_set_needs_update_iff (record sts { spec = desired.spec }) desired want want w w).1
      (refl, record { init_containers = refl; volumes = refl; containers = ContainersAgree-refl _ })
