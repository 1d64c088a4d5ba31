-- ===== src/Uri.antt =====
-- The struct URI of include/hcl/common/data_structures.h, with the constructors that
-- src/hcl/common/data_structures.cpp gives it: the address of a server, in the forms that the transport
-- is started with and called with. Addresses has what is made of the parts of an address, RoundTrip
-- the addresses with a device, NoDevice those without,
-- Copies the copies.
pub mod Addresses
pub mod RoundTrip
pub mod NoDevice
pub mod Copies
use hcl.Base.{
  ℕ, ◌+◌, ◌-◌, List, [], ◌∷◌, ◌++◌, Option, some, none, length, ltb, if◌then◌else◌, ◌>>=◌,
}
use hcl.CharStruct.{CharStruct, of_string, copy_of, assign, plus, plus_assign, string, size}
use hcl.Strings.{find, substr, to_string}

-- an array that nothing has been written to is none
pub record Uri : Type 0 where
  pub server_idx : ℕ
  pub protocol : CharStruct
  pub user_uri : CharStruct
  pub device : CharStruct
  pub interface : CharStruct
  pub ip : CharStruct
  pub client_uri : Option CharStruct
  pub server_uri : Option CharStruct
  pub endpoint_uri : Option CharStruct
  pub port : ℕ

abbrev pub no_text : CharStruct
no_text = record { value = [] }

-- "://", "/" and ":"
abbrev pub scheme_end : List ℕ
scheme_end = b':' ∷ b'/' ∷ b'/' ∷ []

abbrev pub slash : List ℕ
slash = b'/' ∷ []

abbrev pub colon : List ℕ
colon = b':' ∷ []

-- `rest.substr(interface_start_pos, uri_str.size() - 2)`, where the test before it lets it run
pub cut_interface : List ℕ → ℕ → ℕ → Option CharStruct
cut_interface rest uri_size interface_start_pos =
    if ltb interface_start_pos (uri_size - 2)
    then (substr rest interface_start_pos (uri_size - 2) >>= of_string)
    else some no_text

-- the device and the interface
pub cut_rest : List ℕ → ℕ → ℕ → Option (CharStruct × CharStruct)
unfolding cut_interface
cut_rest rest uri_size device_start_pos = elim (find slash rest) [
  | none ↦ cut_interface rest uri_size device_start_pos >>= λ interface. some (no_text, interface)
  | some device_end_pos ↦ do
    cut ← substr rest 0 device_end_pos
    device ← of_string cut
    interface ← cut_interface rest uri_size (device_end_pos + 1)
    some (device, interface)
]

-- the protocol, the device and the interface
pub cut_uri : CharStruct → Option (CharStruct × CharStruct × CharStruct)
unfolding cut_rest assign string
cut_uri uri = elim (find scheme_end (string uri)) [
  | none ↦ some (assign no_text uri, no_text, no_text)
  | some protocol_end_pos ↦ do
    cut ← substr (string uri) 0 protocol_end_pos
    protocol ← of_string cut
    rest ← substr (string uri) (protocol_end_pos + 3) (length (string uri))
    (device, interface) ← cut_rest rest (length (string uri)) (protocol_end_pos + 3)
    some (protocol, device, interface)
]

-- `if (device.size() > 0) uri += (device + "/")`
pub add_device : CharStruct → CharStruct → Option CharStruct
unfolding size
add_device device uri =
    let longer = plus device (record { value = slash }) >>= λ part. plus_assign uri part in
    if ltb 0 (size device) then longer else some uri

-- `ip + ":" + std::to_string(port)`
pub host_and_port : CharStruct → ℕ → Option CharStruct
host_and_port ip port = do
  host ← plus ip (record { value = colon })
  number ← of_string (to_string port)
  plus host number

-- URI(_server_idx, _uri, _ip, _port)
pub new_uri : ℕ → CharStruct → CharStruct → ℕ → Option Uri
unfolding cut_uri add_device host_and_port assign
new_uri _server_idx _uri _ip _port = do
  user_uri ← copy_of _uri
  (protocol, device, interface) ← cut_uri _uri
  let ip = assign no_text _ip
  scheme ← plus protocol (record { value = scheme_end })
  host ← host_and_port ip _port
  prefix ← add_device device scheme
  server_uri ← plus_assign prefix host
  client_uri ← plus_assign scheme host
  endpoint_uri ← plus_assign prefix interface
  some (record {
    server_idx = 0;
    protocol = protocol;
    user_uri = user_uri;
    device = device;
    interface = interface;
    ip = ip;
    client_uri = some client_uri;
    server_uri = some server_uri;
    endpoint_uri = some endpoint_uri;
    port = _port;
  })

-- URI(), where the library is built for `protocol`
pub default_uri : List ℕ → Option Uri
default_uri protocol = do
  protocol' ← of_string protocol
  user_uri ← of_string (protocol ++ scheme_end)
  some (record {
    server_idx = 0;
    protocol = protocol';
    user_uri = user_uri;
    device = no_text;
    interface = no_text;
    ip = no_text;
    client_uri = none;
    server_uri = none;
    endpoint_uri = none;
    port = 9000;
  })

-- a copy of an array that nothing has been written to has no text either
pub copy_array : Option CharStruct → Option (Option CharStruct)
copy_array none = some none
copy_array (some a) = copy_of a >>= λ b. some (some b)

-- the copy constructor
pub copy_uri : Uri → Option Uri
unfolding copy_array
copy_uri other = do
  protocol ← copy_of other.protocol
  user_uri ← copy_of other.user_uri
  device ← copy_of other.device
  interface ← copy_of other.interface
  ip ← copy_of other.ip
  client_uri ← copy_array other.client_uri
  server_uri ← copy_array other.server_uri
  endpoint_uri ← copy_array other.endpoint_uri
  some (record {
    server_idx = other.server_idx;
    protocol = protocol;
    user_uri = user_uri;
    device = device;
    interface = interface;
    ip = ip;
    client_uri = client_uri;
    server_uri = server_uri;
    endpoint_uri = endpoint_uri;
    port = other.port;
  })

-- the move constructor, which has no initializer for `endpoint_uri`. Its parameter has a name, so its
-- members are copied
pub move_uri : Uri → Option Uri
unfolding copy_array
move_uri other = do
  protocol ← copy_of other.protocol
  user_uri ← copy_of other.user_uri
  device ← copy_of other.device
  interface ← copy_of other.interface
  ip ← copy_of other.ip
  client_uri ← copy_array other.client_uri
  server_uri ← copy_array other.server_uri
  some (record {
    server_idx = other.server_idx;
    protocol = protocol;
    user_uri = user_uri;
    device = device;
    interface = interface;
    ip = ip;
    client_uri = client_uri;
    server_uri = server_uri;
    endpoint_uri = none;
    port = other.port;
  })
