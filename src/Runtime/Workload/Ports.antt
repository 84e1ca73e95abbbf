-- ===== src/Runtime/Workload/Ports.antt =====
-- The ports of a container, of crates/ployz-runtime-backends/src/deploy/local.rs.
use ployz.Prelude.{
  ℕ, Option, none, some, List, [], ◌∷◌, ◌++◌, ◌==◌, text_eq, nat_eq, find, is_empty, if◌then◌else◌,
}
use ployz.Prelude.Map
use ployz.Prelude.Map.{Map}
use ployz.Prelude.Text.{Text, codes}
use ployz.Prelude.Text.Decimal.{decimal}
use ployz.Model.Error.{Error, Result, ok, err, ◌>>=◌}
use ployz.Model.Spec.{PortProtocol, tcp, udp, ServicePort, PublishedPort, ServiceSpec}
use ployz.Runtime.{PortBinding, PortMap}

unfoldable pub service_port_map : List ServicePort → Map Text ℕ → Map Text ℕ
unfolding Map.insert text_eq
service_port_map [] m = m
service_port_map (p ∷ ps) m = service_port_map ps (Map.insert p.name p.container_port m)

abbrev pub port_named : Text → List ServicePort → Option ServicePort
port_named name = find (λ (p : ServicePort). p.name == name)

abbrev pub runtime_error : Text → Text → Error
runtime_error operation message = record { operation = operation; message = message }

unfoldable pub resolve_service_port : ServiceSpec → Text → Result Error ℕ
unfolding text_eq
resolve_service_port spec name = elim (port_named name spec.service_ports) [
  | some p ↦ ok p.container_port
  | none ↦ err (
      runtime_error (codes "resolve_service_port") (
        codes "service '"
        ++ (spec.name ++ (codes "' has no service port named '" ++ (name ++ codes "'")))))
]

abbrev pub protocol_name : PortProtocol → Text
protocol_name tcp = codes "tcp"
protocol_name udp = codes "udp"

-- `entry(key).or_insert_with(…)` and the push, where an entry without a list is an error.
abbrev pub push_binding :
    Text → PortBinding → PortMap → Option (Option (List PortBinding)) → Result Error PortMap
push_binding key b m none = ok (Map.insert key (some (b ∷ [])) m)
push_binding key b m (some (some items)) = ok (Map.insert key (some (items ++ b ∷ [])) m)
push_binding key b m (some none) = err (
    runtime_error (codes "build_port_bindings")
      (codes "port binding entry did not contain a binding list"))

abbrev pub unknown_port : ServiceSpec → PublishedPort → Error
unknown_port spec published = runtime_error (codes "build_port_bindings") (
    codes "service '"
    ++ (spec.name ++ (codes "' publishes unknown port '" ++ (published.service_port ++ codes "'"))))

abbrev pub known_port : Error → Option ServicePort → Result Error ServicePort
known_port e none = err e
known_port e (some p) = ok p

abbrev pub port_key : ServicePort → Text
port_key p = decimal p.container_port ++ (codes "/" ++ protocol_name p.protocol)

-- The binding of one published port, under the key of its service port.
unfoldable pub add_binding : PublishedPort → PortMap → ServicePort → Result Error PortMap
unfolding Map.get Map.insert text_eq decimal
add_binding published m service_port =
    push_binding (port_key service_port) (published.host_ip, some (decimal published.host_port)) m
      (Map.get (port_key service_port) m)

unfoldable pub bind_ports : ServiceSpec → List PublishedPort → PortMap → Result Error PortMap
unfolding add_binding text_eq
bind_ports spec [] m = ok m
bind_ports spec (published ∷ rest) m =
    known_port (unknown_port spec published) (port_named published.service_port spec.service_ports)
    >>= λ service_port. add_binding published m service_port >>= bind_ports spec rest

unfoldable pub build_port_bindings : ServiceSpec → Result Error (Option PortMap)
unfolding bind_ports
build_port_bindings spec =
    if is_empty spec.publish
    then ok none
    else (bind_ports spec spec.publish [] >>= λ m. ok (some m))
