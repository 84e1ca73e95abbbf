-- ===== src/Dns/Names.antt =====
-- parse_query (crates/ployz-dns/src/resolve.rs) on names of the full form.
use mathlib.Core.List.{append_assoc, map-append, reverse-append, reverse-reverse}
use ployz.Prelude.{
  ◌≡◌, refl, sym, ap, ◌∙◌, subst, false, [], ◌∷◌, ◌++◌, reverse, arith, ◌==◌, nat_eq, text_eq,
  contains, is_empty, if◌then◌else◌,
}
use ployz.Prelude.Text.{Text, codes, split, trim_start, trim_end, to_ascii_lowercase, lower_char}
use ployz.Model.Spec.{Namespace}
use ployz.Dns.{service_explicit, list_services_explicit, parse_query}

-- A label as a name has it: not empty, in lower case, without a dot.
pub record IsLabel (s : Text) : Type 0 where
  pub present : is_empty s ≡ false
  pub lower : to_ascii_lowercase s ≡ s
  pub no_dot : contains s b'.' ≡ false

-- The name of the zone, with the dot before it.
abbrev suffix : Text
suffix = codes ".ployz.internal"

-- `{service}.{namespace}.ployz.internal`
abbrev pub full_name : Text → Namespace → Text
full_name service ns = service ++ (b'.' ∷ (ns ++ suffix))

split-label :
    (a rest : Text) → contains a b'.' ≡ false → split b'.' (a ++ b'.' ∷ rest) ≡ a ∷ split b'.' rest
unfolding split nat_eq
split-label [] rest h = refl
split-label (c ∷ cs) rest h = ground (arith, split-label cs rest)

-- What ends in another character than a dot has no dots to lose.
keep_end :
    (s : Text)
    → trim_end (λ c. c == b'.') (s ++ codes ".ployz.internal") ≡ s ++ codes ".ployz.internal"
unfolding trim_end trim_start nat_eq
keep_end s =
    ap (λ x. reverse (trim_start (λ c. c == b'.') x)) (reverse-append s suffix)
    ∙ ap reverse (sym (reverse-append s suffix))
    ∙ reverse-reverse (s ++ suffix)

trimmed_name :
    (service : Text) (ns : Namespace)
    → trim_end (λ c. c == b'.') (full_name service ns) ≡ full_name service ns
trimmed_name service ns =
    let together = append_assoc service (b'.' ∷ ns) suffix in
    subst (λ s. trim_end (λ c. c == b'.') s ≡ s) together (keep_end (service ++ (b'.' ∷ ns)))

lower_name :
    (service : Text) (ns : Namespace)
    → IsLabel service
    → IsLabel ns
    → to_ascii_lowercase (full_name service ns) ≡ full_name service ns
unfolding to_ascii_lowercase lower_char
lower_name service ns hs hn =
    rw
      (
        map-append lower_char service (b'.' ∷ (ns ++ suffix)),
        map-append lower_char ns suffix,
        hs.lower,
        hn.lower,
      )
      refl

labels_of :
    (service : Text) (ns : Namespace)
    → IsLabel service
    → IsLabel ns
    → split b'.' (full_name service ns) ≡ service ∷ ns ∷ codes "ployz" ∷ codes "internal" ∷ []
unfolding split nat_eq
labels_of service ns hs hn =
    split-label service (ns ++ suffix) hs.no_dot
    ∙ ap (λ x. service ∷ x) (split-label ns (codes "ployz.internal") hn.no_dot)

-- For labels that are not empty, are in lower case and have no dot, the name
-- `service.namespace.ployz.internal` parses to the query for that service in that namespace, and to
-- the list of the services of the namespace when the service is `_services`.
pub parse_query-full_name :
    (service : Text) (ns : Namespace)
    → IsLabel service
    → IsLabel ns
    → parse_query (full_name service ns) ≡ (
        if service == codes "_services"
        then list_services_explicit ns
        else service_explicit service ns)
unfolding parse_query text_eq nat_eq
parse_query-full_name service ns hs hn =
    rw
      (
        trimmed_name service ns,
        lower_name service ns hs hn,
        labels_of service ns hs hn,
        hs.present,
        hn.present,
      )
      refl
