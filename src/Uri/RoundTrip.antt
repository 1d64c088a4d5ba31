-- ===== src/Uri/RoundTrip.antt =====
-- The addresses of a URI with a device.
use hcl.Base.{
  ℕ, ◌+◌, ◌-◌, ◌≡◌, ◌<◌, ◌≤◌, refl, ap, ◌∙◌, true, List, [], ◌∷◌, ◌++◌, append_assoc, some, length,
  length-append, lt→ltb, arith,
}
use hcl.CharStruct.{string}
use hcl.CharStruct.Text.{no_nul, of_string-some}
use hcl.Strings.{lacks}
use hcl.Strings.Find.{find-append, substr-front, substr-after}
use hcl.Uri.Addresses.{text, host_text, without_device, device_part, new_uri-made_uri}
use hcl.Uri.{scheme_end, slash, cut_interface, cut_rest, cut_uri, new_uri}

-- protocol://device/rest
abbrev pub with_device : List ℕ → List ℕ → List ℕ → List ℕ
with_device protocol device rest = protocol ++ (scheme_end ++ (device ++ (slash ++ rest)))

cut_rest-with_device :
    (d i : List ℕ) (uri_size start : ℕ)
    → lacks b'/' d ≡ true
    → no_nul d ≡ true
    → no_nul i ≡ true
    → length d + length i + 4 ≤ uri_size
    → uri_size < 256
    → cut_rest (d ++ (slash ++ i)) uri_size start ≡ some (text d, text i)
unfolding cut_rest cut_interface
cut_rest-with_device d i uri_size start free clean clean' le lt =
    rw
      (
        find-append b'/' [] d i free,
        cut_rest,
        substr-front d (slash ++ i),
        of_string-some d clean (omega arith),
        lt→ltb (length d + 1) (uri_size - 2) (omega arith),
        substr-after d slash i (length d + 1) (uri_size - 2) (omega arith) (omega arith),
        of_string-some i clean' (omega arith),
      )
      refl

length-with_device :
    (p d i : List ℕ) → length (with_device p d i) ≡ length p + length d + length i + 4
length-with_device p d i =
    omega (arith, length-append p (scheme_end ++ (d ++ (slash ++ i))), length-append d (slash ++ i))

-- the parts of the text
module _ (p d i : List ℕ) (free : lacks b':' p ≡ true) (free' : lacks b'/' d ≡ true)
    (clean : no_nul p ≡ true) (clean' : no_nul d ≡ true) (clean'' : no_nul i ≡ true) where
  pub cut_uri-with_device :
      length p + length d + length i + 4 < 256
      → cut_uri (text (with_device p d i)) ≡ some (text p, text d, text i)
  unfolding cut_uri string
  cut_uri-with_device lt =
      let rest = d ++ (slash ++ i) in
      let len = length-with_device p d i in
      let len' : length rest ≡ length d + length i + 1 =
        omega (arith, length-append d (slash ++ i)) in
      rw
        (
          find-append b':' (b'/' ∷ slash) p rest free,
          cut_uri,
          substr-front p (scheme_end ++ rest),
          of_string-some p clean (omega arith),
          substr-after p scheme_end rest (length p + 3) (length (with_device p d i)) (omega arith)
              (omega arith),
          cut_rest-with_device d i (length (with_device p d i)) (length p + 3) free' clean' clean''
              (omega arith) (omega arith),
        )
        refl

device_part-slash : (d : List ℕ) → 0 < length d → device_part d ≡ d ++ slash
device_part-slash [] pos = absurd (omega arith)
device_part-slash (c ∷ d) pos = refl

-- The address `protocol://device/interface`, its protocol without a colon, its device not empty and
-- without a slash, no zero byte in any part or in the ip, and every address that is made of them shorter
-- than 256 bytes: the constructor returns. It cuts the text into the three parts that it was put together
-- from, makes an endpoint_uri that is the text again, adds the ip and the port to the protocol in
-- client_uri, and to the protocol and the device in server_uri, and leaves server_idx 0.
pub new_uri-with_device :
    (idx : ℕ) (p d i ip : List ℕ) (port : ℕ)
    → (lacks b':' p ≡ true) × (lacks b'/' d ≡ true) × (0 < length d)
    → (no_nul p ≡ true) × (no_nul d ≡ true) × (no_nul i ≡ true) × (no_nul ip ≡ true)
    → (length p + length d + length i + 4 < 256)
      × (length p + length d + length (host_text ip port) + 4 < 256)
    → new_uri idx (text (with_device p d i)) (text ip) port
      ≡ some (record {
        server_idx = 0;
        protocol = text p;
        user_uri = text (with_device p d i);
        device = text d;
        interface = text i;
        ip = text ip;
        client_uri = some (text (without_device p (host_text ip port)));
        server_uri = some (text (with_device p d (host_text ip port)));
        endpoint_uri = some (text (with_device p d i));
        port = port;
      })
new_uri-with_device idx p d i ip port (free, free', pos) (clean, clean', clean'', clean_ip)
      (lt, lt') =
    let part = device_part-slash d pos in
    let len : length (device_part d) ≡ length d + 1 = ap length part ∙ length-append d slash in
    new_uri-made_uri idx (with_device p d i) p d i ip port
      (cut_uri-with_device p d i free free' clean clean' clean'' lt)
      (omega (arith, length-with_device p d i)) (clean, clean', clean'', clean_ip)
      (omega arith, omega arith)
    ∙ rw (part, append_assoc d slash i, append_assoc d slash (host_text ip port)) refl
