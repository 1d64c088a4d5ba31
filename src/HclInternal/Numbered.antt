-- ===== src/HclInternal/Numbered.antt =====
-- LoadURI against LoadServers, which read the same file.
use hcl.Base.{
  ℕ, zero, suc, ◌+◌, ◌≡◌, refl, sym, List, [], ◌∷◌, ◌++◌, append_assoc, append-nil, Option, some,
  none, length, u16, Option-cases, inl, inr, ◌>>=◌,
}
use hcl.CharStruct.{CharStruct, string}
use hcl.Strings.{get_lines}
use hcl.Uri.{Uri, new_uri}
use hcl.ConfigurationManager.{Files, read_line, rounds, load_lines, read_servers}
use hcl.ConfigurationManager.Hosts.{copies, length-copies, emplace_servers-copies}
use hcl.HclInternal.{push_uris, load_uri_lines, load_uri}

-- the servers of a list from number `i` on, each with its own number and port; both are uint16_t
unfoldable pub number_servers : ℕ → CharStruct → ℕ → List CharStruct → Option (List Uri)
number_servers port uri i [] = some []
number_servers port uri i (host ∷ hosts) = do
  server_uri ← new_uri i uri host (u16 (port + i))
  uris ← number_servers port uri (u16 (i + 1)) hosts
  some (server_uri ∷ uris)

-- the number behind `n` servers
number_after : ℕ → ℕ → ℕ
number_after zero i = i
number_after (suc n) i = number_after n (u16 (i + 1))

>>=-some {ℓ} : {A : Type ℓ} (m : Option A) → (m >>= λ a. some a) ≡ m
>>=-some none = refl
>>=-some (some a) = refl

module _ (port : ℕ) (uri : CharStruct) where
  number_servers-append :
      (i : ℕ) (hosts hosts' : List CharStruct)
      → number_servers port uri i (hosts ++ hosts') ≡ (
          number_servers port uri i hosts >>= λ us.
          number_servers port uri (number_after (length hosts) i) hosts' >>= λ us'.
          some (us ++ us'))
  unfolding number_servers number_after
  number_servers-append i [] hosts' = sym (>>=-some (number_servers port uri i hosts'))
  number_servers-append i (host ∷ hosts) hosts' =
      let rest = number_servers port uri (u16 (i + 1)) hosts in
      let rest' = number_servers port uri (number_after (length hosts) (u16 (i + 1))) hosts' in
      elim (Option-cases (new_uri i uri host (u16 (port + i)))) [
        | inl e ↦ rw e refl
        | inr (u, e) ↦
            rw (e, number_servers-append (u16 (i + 1)) hosts hosts')
              (elim (Option-cases rest) [
                | inl r ↦ rw r refl
                | inr (us, r) ↦
                    rw r (elim (Option-cases rest') [
                      | inl r' ↦ rw r' refl
                      | inr (us', r') ↦ rw r' refl
                    ])
              ])
      ]

  push_uris-number_servers :
      (n : ℕ) (host : CharStruct) (uris : List Uri) (i : ℕ)
      → push_uris n port uri host uris i ≡ (
          number_servers port uri i (copies n host.value) >>= λ us.
          some (uris ++ us, number_after n i))
  unfolding push_uris number_servers number_after
  push_uris-number_servers zero host uris i = rw append-nil refl
  push_uris-number_servers (suc n) host uris i =
      let rest = number_servers port uri (u16 (i + 1)) (copies n host.value) in
      elim (Option-cases (new_uri i uri host (u16 (port + i)))) [
        | inl e ↦ rw e refl
        | inr (u, e) ↦
            rw (e, push_uris-number_servers n host (uris ++ u ∷ []) (u16 (i + 1)))
              (elim (Option-cases rest) [
                | inl r ↦ rw r refl
                | inr (us, r) ↦ rw (r, append_assoc uris (u ∷ []) us) refl
              ])
      ]

load_lines-append :
    (lines : List (List ℕ)) (servers : List CharStruct)
    → load_lines lines servers ≡ (load_lines lines [] >>= λ hosts. some (servers ++ hosts))
unfolding load_lines
load_lines-append [] servers = rw append-nil refl
load_lines-append ([] ∷ lines) servers = load_lines-append lines servers
load_lines-append ((c ∷ s) ∷ lines) servers = elim (Option-cases (read_line (c ∷ s))) [
  | inl e ↦ rw e refl
  | inr ((host, count), e) ↦
      let some_hosts = copies (rounds count) host.value in
      rw
        (
          e,
          emplace_servers-copies (rounds count) host.value servers,
          emplace_servers-copies (rounds count) host.value [],
          load_lines-append lines (servers ++ some_hosts),
          load_lines-append lines some_hosts,
        )
        (elim (Option-cases (load_lines lines [])) [
          | inl l ↦ rw l refl
          | inr (hosts, l) ↦ rw (l, append_assoc servers some_hosts hosts) refl
        ])
]

load_uri_lines-number_servers :
    (port : ℕ) (uri : CharStruct) (lines : List (List ℕ)) (uris : List Uri) (i : ℕ)
    → load_uri_lines lines port uri uris i ≡ (
        load_lines lines [] >>= λ hosts.
        number_servers port uri i hosts >>= λ us. some (uris ++ us))
unfolding load_uri_lines load_lines number_servers
load_uri_lines-number_servers port uri [] uris i = rw append-nil refl
load_uri_lines-number_servers port uri ([] ∷ lines) uris i =
    load_uri_lines-number_servers port uri lines uris i
load_uri_lines-number_servers port uri ((c ∷ s) ∷ lines) uris i =
    elim (Option-cases (read_line (c ∷ s))) [
      | inl e ↦ rw e refl
      | inr ((host, count), e) ↦
          let n = rounds count in
          let here = number_servers port uri i (copies n host.value) in
          rw
            (
              e,
              push_uris-number_servers port uri n host uris i,
              emplace_servers-copies n host.value [],
              load_lines-append lines (copies n host.value),
            )
            (elim (Option-cases here) [
              | inl h ↦ rw h (elim (Option-cases (load_lines lines [])) [
                | inl l ↦ rw l refl
                | inr (hosts, l) ↦
                    rw (l, number_servers-append port uri i (copies n host.value) hosts, h) refl
              ])
              | inr (us, h) ↦
                  rw
                    (
                      h,
                      load_uri_lines-number_servers port uri lines (uris ++ us) (number_after n i),
                    )
                    (elim (Option-cases (load_lines lines [])) [
                      | inl l ↦ rw l refl
                      | inr (hosts, l) ↦
                          rw
                            (
                              l,
                              number_servers-append port uri i (copies n host.value) hosts,
                              h,
                              length-copies n host.value,
                            )
                            (elim (Option-cases
                              (number_servers port uri (number_after n i) hosts)) [
                                | inl r ↦ rw r refl
                                | inr (us', r) ↦ rw (r, append_assoc uris us us') refl
                              ])
                    ])
            ])
    ]

-- Whatever the file holds, and also where there is none: LoadURI returns just if LoadServers can read the
-- file and each server that it lists gets a URI, and the URIs are those of the servers that LoadServers
-- lists, in this order, the one at place `i` with the port `_port + i`, as a uint16_t.
pub load_uri-read_servers :
    (files : Files) (port : ℕ) (path uri : CharStruct)
    → load_uri files port path uri ≡ (read_servers (files path.value) >>= number_servers port uri 0)
unfolding load_uri read_servers string number_servers
load_uri-read_servers files port path uri = elim (Option-cases (files path.value)) [
  | inl e ↦ rw (e, load_uri) refl
  | inr (file, e) ↦
      rw (e, load_uri, load_uri_lines-number_servers port uri (get_lines file) [] 0)
        (elim (Option-cases (load_lines (get_lines file) [])) [
          | inl l ↦ rw l refl
          | inr (hosts, l) ↦ rw l (>>=-some (number_servers port uri 0 hosts))
        ])
]
