-- ===== src/Uri/Addresses.antt =====
-- The addresses that the constructor of a URI makes of the parts of a text.
use hcl.Base.{
  ℕ, ◌+◌, ◌≡◌, ◌<◌, refl, true, List, [], ◌∷◌, ◌++◌, append_assoc, append-nil, some, length,
  length-append, lt→ltb, arith,
}
use hcl.CharStruct.{CharStruct, size, assign}
use hcl.CharStruct.Text.{no_nul, of_string-some, copy_of-some, plus-some}
use hcl.Strings.{lacks, to_string}
use hcl.Strings.Find.{lacks-append}
use hcl.Strings.Numbers.{lacks_nul-to_string}
use hcl.Uri.{Uri, scheme_end, slash, colon, cut_uri, add_device, host_and_port, new_uri}

-- protocol://rest
abbrev pub without_device : List ℕ → List ℕ → List ℕ
without_device protocol rest = protocol ++ (scheme_end ++ rest)

-- ip:port
abbrev pub host_text : List ℕ → ℕ → List ℕ
host_text ip port = ip ++ (colon ++ to_string port)

abbrev pub text : List ℕ → CharStruct
text xs = record { value = xs }

pub host_and_port-some :
    (ip : List ℕ) (port : ℕ)
    → no_nul ip ≡ true
    → length (host_text ip port) < 256
    → host_and_port (text ip) port ≡ some (text (host_text ip port))
unfolding host_and_port lacks
host_and_port-some ip port clean lt =
    let digits_clean = lacks_nul-to_string port in
    let long = length-append ip (colon ++ to_string port) in
    let front = length-append ip colon in
    rw
      (
        (plus-some ip clean colon refl (omega arith)).0,
        of_string-some (to_string port) digits_clean (omega arith),
        (plus-some (ip ++ colon) (lacks-append 0 ip colon clean refl) (to_string port) digits_clean
            (omega arith)).0,
        append_assoc,
      )
      refl

-- `device/`, or nothing where there is no device
abbrev pub device_part : List ℕ → List ℕ
device_part [] = []
device_part (c ∷ d) = (c ∷ d) ++ slash

device_part-no_nul : (d : List ℕ) → no_nul d ≡ true → no_nul (device_part d) ≡ true
unfolding lacks
device_part-no_nul [] clean = refl
device_part-no_nul (c ∷ d) clean = lacks-append 0 (c ∷ d) slash clean refl

add_device-some :
    (d x : List ℕ)
    → no_nul d ≡ true
    → no_nul x ≡ true
    → length x + length (device_part d) < 256
    → add_device (text d) (text x) ≡ some (text (x ++ device_part d))
unfolding add_device size lacks
add_device-some [] x clean clean' lt = rw append-nil refl
add_device-some (c ∷ d) x clean clean' lt =
    let len = length-append d slash in
    let part = (plus-some (c ∷ d) clean slash refl (omega arith)).0 in
    let longer = (plus-some x clean' ((c ∷ d) ++ slash) (device_part-no_nul (c ∷ d) clean) lt).1 in
    rw (part, longer, lt→ltb 0 (length (c ∷ d)) (omega arith)) refl

-- protocol://device/rest, or protocol://rest where there is no device
abbrev pub full_text : List ℕ → List ℕ → List ℕ → List ℕ
full_text protocol device rest = protocol ++ (scheme_end ++ (device_part device ++ rest))

-- what the constructor makes of the parts of a text
abbrev pub made_uri : List ℕ → List ℕ → List ℕ → List ℕ → List ℕ → ℕ → Uri
made_uri uri p d i ip port = record {
  server_idx = 0;
  protocol = text p;
  user_uri = text uri;
  device = text d;
  interface = text i;
  ip = text ip;
  client_uri = some (text (without_device p (host_text ip port)));
  server_uri = some (text (full_text p d (host_text ip port)));
  endpoint_uri = some (text (full_text p d i));
  port = port;
}

pub new_uri-made_uri :
    (idx : ℕ) (uri p d i ip : List ℕ) (port : ℕ)
    → cut_uri (text uri) ≡ some (text p, text d, text i)
    → length uri < 256
    → (no_nul p ≡ true) × (no_nul d ≡ true) × (no_nul i ≡ true) × (no_nul ip ≡ true)
    → (length p + 3 + length (device_part d) + length i < 256)
      × (length p + 3 + length (device_part d) + length (host_text ip port) < 256)
    → new_uri idx (text uri) (text ip) port ≡ some (made_uri uri p d i ip port)
unfolding new_uri assign lacks
new_uri-made_uri idx uri p d i ip port cut fits (clean, clean', clean'', clean_ip) (lt, lt') =
    let host = host_text ip port in
    let scheme = p ++ scheme_end in
    let prefix = scheme ++ device_part d in
    let clean_host : no_nul host ≡ true =
      lacks-append 0 ip (colon ++ to_string port) clean_ip (lacks_nul-to_string port) in
    let clean_scheme = lacks-append 0 p scheme_end clean refl in
    let clean_prefix =
      lacks-append 0 scheme (device_part d) clean_scheme (device_part-no_nul d clean') in
    let len = length-append p scheme_end in
    let len' = length-append scheme (device_part d) in
    rw
      (
        copy_of-some uri fits,
        cut,
        (plus-some p clean scheme_end refl (omega arith)).0,
        host_and_port-some ip port clean_ip (omega arith),
        add_device-some d scheme clean' clean_scheme (omega arith),
        (plus-some prefix clean_prefix host clean_host (omega arith)).1,
        (plus-some scheme clean_scheme host clean_host (omega arith)).1,
        (plus-some prefix clean_prefix i clean'' (omega arith)).1,
      )
      (simp append_assoc)
