-- ===== src/HclInternal/Servers.antt =====
-- A process that starts on a server list: where it sends its calls, and where it listens itself.
use hcl.Base.{
  ℕ, zero, suc, ◌+◌, ◌≡◌, ◌<◌, refl, ◌∙◌, ap, Bool, true, false, List, [], ◌∷◌, ◌++◌, Option, some,
  none, length, length-append, get_elem?, u16, arith,
}
use mathlib.Core.Option.{some-injective}
use hcl.CharStruct.{CharStruct}
use hcl.CharStruct.Text.{no_nul}
use hcl.Strings.{lacks, to_string}
use hcl.Strings.Numbers.{length-to_string}
use hcl.Uri.{Uri, scheme_end, colon, new_uri}
use hcl.Uri.Addresses.{text, host_text, without_device, made_uri, new_uri-made_uri}
use hcl.Uri.NoDevice.{cut_uri-without_device}
use hcl.ConfigurationManager.{Files}
use hcl.ConfigurationManager.Hosts.{Entry, AllEntries, print_list, expand, read_servers-expand}
use hcl.RpcLib.{Engine}
use hcl.HclInternal.{load_uri}
use hcl.HclInternal.Numbered.{number_servers, load_uri-read_servers}

-- the address of server `k` on a node: `protocol://node:port`, with the port counted on from the first
abbrev pub address : List ℕ → ℕ → ℕ → CharStruct → List ℕ
address protocol port k host = without_device protocol (host_text host.value (u16 (port + k)))

-- a node whose addresses are short enough
abbrev pub IsShort : List ℕ → CharStruct → Type 0
IsShort protocol host = (no_nul host.value ≡ true) × (length protocol + length host.value + 9 < 256)

abbrev pub AllShort : List ℕ → List CharStruct → Type 0
AllShort protocol [] = Unit {0}
AllShort protocol (host ∷ hosts) = IsShort protocol host × AllShort protocol hosts

-- the text `protocol://`, and what the constructor makes of it for server `k` on a node
abbrev pub default_text : List ℕ → CharStruct
default_text protocol = text (without_device protocol [])

abbrev pub plain_uri : List ℕ → ℕ → ℕ → CharStruct → Uri
plain_uri protocol port k host =
    made_uri (without_device protocol []) protocol [] [] host.value (u16 (port + k))

unfoldable pub plain_uris : List ℕ → ℕ → ℕ → List CharStruct → List Uri
plain_uris protocol port k [] = []
plain_uris protocol port k (host ∷ hosts) =
    plain_uri protocol port k host ∷ plain_uris protocol port (suc k) hosts

-- the engine of a process that has had none: a server listens at its own address
abbrev pub own_engine : List ℕ → ℕ → Bool → ℕ → CharStruct → Engine
own_engine protocol port true me own = record {
  address = address protocol port me own;
  server_mode = true;
}
own_engine protocol port false me own = record {
  address = without_device protocol [];
  server_mode = false;
}

abbrev pub own_server : List ℕ → ℕ → Bool → ℕ → CharStruct → Option Engine
own_server protocol port true me own = some (own_engine protocol port true me own)
own_server protocol port false me own = none

module _ (protocol : List ℕ) (port : ℕ) where
  pub length-plain_uris :
      (k : ℕ) (hosts : List CharStruct) → length (plain_uris protocol port k hosts) ≡ length hosts
  unfolding plain_uris
  length-plain_uris k [] = refl
  length-plain_uris k (host ∷ hosts) = ap suc (length-plain_uris (suc k) hosts)

  get_elem?-plain_uris :
      (j k : ℕ) (hosts : List CharStruct) (host : CharStruct)
      → get_elem? hosts j ≡ some host
      → get_elem? (plain_uris protocol port k hosts) j ≡ some (plain_uri protocol port (k + j) host)
  unfolding plain_uris
  get_elem?-plain_uris j k [] host e = absurd (cc)
  get_elem?-plain_uris zero k (h ∷ hosts) host e =
      ap some (ap (plain_uri protocol port k) (some-injective h host e))
      ∙ ap (λ n. some (plain_uri protocol port n host)) (omega arith)
  get_elem?-plain_uris (suc j) k (h ∷ hosts) host e =
      get_elem?-plain_uris j (suc k) hosts host e
      ∙ ap (λ n. some (plain_uri protocol port n host)) (omega arith)

  pub own_uri :
      (j : ℕ) (hosts : List CharStruct) (host : CharStruct)
      → get_elem? hosts j ≡ some host
      → get_elem? (plain_uris protocol port 0 hosts) j ≡ some (plain_uri protocol port j host)
  own_uri j hosts host e =
      get_elem?-plain_uris j 0 hosts host e
      ∙ ap (λ n. some (plain_uri protocol port n host)) (omega arith)

u16-add : (port k : ℕ) → u16 (port + u16 k) ≡ u16 (port + k)
unfolding u16
u16-add port k = omega arith

u16-suc : (k : ℕ) → u16 (u16 k + 1) ≡ u16 (suc k)
unfolding u16
u16-suc k = omega arith

module _ (protocol : List ℕ) (free : lacks b':' protocol ≡ true) (clean : no_nul protocol ≡ true)
    (port : ℕ) where
  new_uri-plain_uri :
      (i k : ℕ) (host : CharStruct)
      → IsShort protocol host
      → new_uri i (default_text protocol) host (u16 (port + k))
        ≡ some (plain_uri protocol port k host)
  unfolding lacks u16
  new_uri-plain_uri i k host (clean', short) =
      let port' = u16 (port + k) in
      let len = length-append protocol scheme_end in
      let len' = length-append host.value (colon ++ to_string port') in
      let len'' = length-to_string port' (omega arith) in
      new_uri-made_uri i (without_device protocol []) protocol [] [] host.value port'
        (cut_uri-without_device protocol [] (free, refl) (clean, refl) (omega arith)) (omega arith)
        (clean, refl, refl, clean') (omega arith, omega arith)

  number_servers-plain_uris :
      (k : ℕ) (hosts : List CharStruct)
      → AllShort protocol hosts
      → number_servers port (default_text protocol) (u16 k) hosts
        ≡ some (plain_uris protocol port k hosts)
  unfolding number_servers plain_uris
  number_servers-plain_uris k [] short = refl
  number_servers-plain_uris k (host ∷ hosts) (short, rest) =
      rw
        (
          u16-add port k,
          u16-suc k,
          new_uri-plain_uri (u16 k) k host short,
          number_servers-plain_uris (suc k) hosts rest,
        )
        refl

  pub load_uri-plain_uris :
      (files : Files) (path : CharStruct) (es : List Entry)
      → files path.value ≡ some (print_list es)
      → AllEntries es
      → AllShort protocol (expand es)
      → load_uri files port path (default_text protocol)
        ≡ some (plain_uris protocol port 0 (expand es))
  unfolding u16
  load_uri-plain_uris files path es file entries short =
      load_uri-read_servers files port path (default_text protocol)
      ∙ rw (file, read_servers-expand es entries) (number_servers-plain_uris 0 (expand es) short)
