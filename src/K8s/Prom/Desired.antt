-- ===== src/K8s/Prom/Desired.antt =====
-- What the Prom operator wants: the pods, and the service in front of them.
use koko.Base.{◌≡◌, refl, ap, List, [], ◌∷◌, map}
use koko.K8s.Types.{ServicePort, Container, ApiMachinery}
use koko.K8s.Prom.{Prom, container_ports, new_containers, new_deploy, new_service}

container_ports-target :
    (ps : List ServicePort)
    → map (λ c. c.container_port) (container_ports ps) ≡ map (λ p. p.target_port.int_val) ps
unfolding container_ports
container_ports-target [] = refl
container_ports-target (p ∷ ps) = ap (◌∷◌ p.target_port.int_val) (container_ports-target ps)

-- The deployment and the service select exactly the labels that the pods carry, stand in one
-- namespace under one name; the deployment asks for the replicas of the resource, and its one
-- container has the resource's image and environment, and exposes the number of each target port
-- of the service, in their order.
pub new_deploy_prom_consistent :
    (K : ApiMachinery) (app : Prom)
    → let d = new_deploy K app in
      let s = new_service K app in
      (d.spec.selector ≡ d.spec.template.meta.labels)
      × (s.spec.selector ≡ d.spec.template.meta.labels)
      × (d.meta.name ≡ s.meta.name)
      × (d.meta.namespace ≡ s.meta.namespace)
      × (d.spec.replicas ≡ app.spec.size)
      × ((c : Container) × (d.spec.template.containers ≡ c ∷ [])
          × (c.image ≡ app.spec.image)
          × (c.env ≡ app.spec.envs)
          × (map (λ p. p.container_port) c.ports ≡ map (λ p. p.target_port.int_val) s.spec.ports))
unfolding new_deploy new_service new_containers
new_deploy_prom_consistent K app =
    (refl, refl, refl, refl, refl, (_, refl, refl, refl, container_ports-target app.spec.ports))
