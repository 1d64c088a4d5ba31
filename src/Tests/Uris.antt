-- ===== src/Tests/Uris.antt =====
-- The addresses of servers at concrete texts.
use hcl.Base.{
  ℕ, ◌+◌, ◌≡◌, ◌<◌, refl, true, List, [], ◌∷◌, some, none, length, drop, ltb, leb, if◌then◌else◌,
  arith,
}
use hcl.CharStruct.Text.{no_nul}
use hcl.Strings.{lacks, to_string}
use hcl.Uri.{Uri, no_text, new_uri, cut_uri, copy_uri, move_uri}
use hcl.Uri.Addresses.{text, host_text, without_device}
use hcl.Uri.RoundTrip.{with_device, new_uri-with_device}
use hcl.Uri.NoDevice.{cut_uri-without_device}
use hcl.Uri.Copies.{IsTerminated, copy_uri-move_uri}

-- "tcp", "lo", "0", "n1" and "eth0"
abbrev tcp : List ℕ
tcp = b't' ∷ b'c' ∷ b'p' ∷ []

abbrev lo : List ℕ
lo = b'l' ∷ b'o' ∷ []

abbrev zero_text : List ℕ
zero_text = b'0' ∷ []

abbrev n1 : List ℕ
n1 = b'n' ∷ b'1' ∷ []

abbrev eth0 : List ℕ
eth0 = b'e' ∷ b't' ∷ b'h' ∷ b'0' ∷ []

tcp-free : lacks b':' tcp ≡ true
unfolding lacks
tcp-free = refl

tcp-no_nul : no_nul tcp ≡ true
unfolding lacks
tcp-no_nul = refl

lo-free : lacks b'/' lo ≡ true
unfolding lacks
lo-free = refl

lo-no_nul : no_nul lo ≡ true
unfolding lacks
lo-no_nul = refl

zero_text-no_nul : no_nul zero_text ≡ true
unfolding lacks
zero_text-no_nul = refl

n1-no_nul : no_nul n1 ≡ true
unfolding lacks
n1-no_nul = refl

eth0-free : lacks b'/' eth0 ≡ true
unfolding lacks
eth0-free = refl

eth0-no_nul : no_nul eth0 ≡ true
unfolding lacks
eth0-no_nul = refl

host-short : 3 + 2 + length (host_text n1 9000) + 4 < 256
unfolding to_string
host-short = omega arith

new_uri-with_device_example :
    new_uri 3 (text (with_device tcp lo zero_text)) (text n1) 9000
    ≡ some (record {
      server_idx = 0;
      protocol = text tcp;
      user_uri = text (with_device tcp lo zero_text);
      device = text lo;
      interface = text zero_text;
      ip = text n1;
      client_uri = some (text (without_device tcp (host_text n1 9000)));
      server_uri = some (text (with_device tcp lo (host_text n1 9000)));
      endpoint_uri = some (text (with_device tcp lo zero_text));
      port = 9000;
    })
new_uri-with_device_example =
    new_uri-with_device 3 tcp lo zero_text n1 9000 (tcp-free, lo-free, omega arith)
      (tcp-no_nul, lo-no_nul, zero_text-no_nul, n1-no_nul) (omega arith, host-short)

cut_uri-without_device_example : cut_uri (text (without_device tcp eth0)) ≡ (
    if ltb 2 (length eth0)
    then (if leb (length tcp + 3) (length eth0)
        then some (text tcp, no_text, text (drop (length tcp + 3) eth0))
        else none)
    else some (text tcp, no_text, no_text))
cut_uri-without_device_example =
    cut_uri-without_device tcp eth0 (tcp-free, eth0-free) (tcp-no_nul, eth0-no_nul) (omega arith)

-- `tcp://eth0` ends with the exception
cut_uri_throws : cut_uri (text (without_device tcp eth0)) ≡ none
cut_uri_throws = cut_uri-without_device_example

abbrev bare : Uri
bare = record {
  server_idx = 0;
  protocol = text tcp;
  user_uri = text tcp;
  device = no_text;
  interface = no_text;
  ip = text n1;
  client_uri = none;
  server_uri = none;
  endpoint_uri = some (text tcp);
  port = 9000;
}

bare-IsTerminated : IsTerminated bare
bare-IsTerminated = omega arith

copy_uri-move_uri_example :
    (copy_uri bare ≡ some bare) × (move_uri bare ≡ some (record bare { endpoint_uri = none }))
copy_uri-move_uri_example = copy_uri-move_uri bare bare-IsTerminated
