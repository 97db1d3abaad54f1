-- ===== src/K8s/Nginx/Desired.antt =====
-- What the nginx operator wants: the pods, the service in front of them, and who owns both.
use koko.Base.{◌≡◌, refl, ap, ℤ, List, [], ◌∷◌, map}
use koko.Go.Text.{Text}
use koko.K8s.Types.{Container, ServicePort, ContainerPort, ApiMachinery}
use koko.K8s.Nginx.{Ngloy, container_ports, new_containers, new_deploy, new_service}

abbrev pub exposed : ContainerPort → Text × ℤ × Text
exposed c = (c.name, c.container_port, c.protocol)

abbrev pub offered : ServicePort → Text × ℤ × Text
offered p = (p.name, p.port, p.protocol)

container_ports-offered :
    (ps : List ServicePort) → map exposed (container_ports ps) ≡ map offered ps
unfolding container_ports
container_ports-offered [] = refl
container_ports-offered (p ∷ ps) = ap (◌∷◌ (offered p)) (container_ports-offered ps)

-- The deployment and the service select exactly the labels that the pods carry, stand in one
-- namespace under one name; the deployment asks for the replicas of the resource, and its one
-- container has the resource's image and exposes the ports that the service offers, in their order,
-- each under the service port's own number, not its target port.
pub new_deploy_consistent :
    (K : ApiMachinery) (app : Ngloy)
    → let d = new_deploy K app in
      let s = new_service K app in
      (d.spec.selector ≡ d.spec.template.meta.labels)
      × (s.spec.selector ≡ d.spec.template.meta.labels)
      × (d.meta.name ≡ s.meta.name)
      × (d.meta.namespace ≡ s.meta.namespace)
      × (d.spec.replicas ≡ app.spec.size)
      × ((c : Container) × (d.spec.template.containers ≡ c ∷ [])
          × (c.image ≡ app.spec.image)
          × (map exposed c.ports ≡ map offered s.spec.ports))
unfolding new_deploy new_service new_containers
new_deploy_consistent K app =
    (refl, refl, refl, refl, refl, (_, refl, refl, container_ports-offered app.spec.ports))
