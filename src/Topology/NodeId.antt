-- ===== src/Topology/NodeId.antt =====
-- The names of nodes, `host:port`: what they tell apart, and how they are read back.
use mup.Base.{ℕ, ◌≡◌, ◌≢◌, refl, ap, ◌∙◌, sym, true, [], ◌∷◌, ◌++◌, arith}
use mup.Base.Int.{ℤ}
use mup.Base.Text.{Text, show_int, in_int64, read_int}
use mup.Base.Text.Decimal.{show_int-Lacks, read_int-show_int, scan_int-show_int}
use mup.Base.Text.Split.{Lacks, split-append, split_whole}
use mup.Base.Results.{ok}
use mup.Topology.{get_node_id, parse_node_id, port_key}

-- A host without a colon and a port that is a 64-bit integer are read back from a node's name.
pub parse_node_id-get_node_id :
    (host : Text) (port : ℤ)
    → Lacks b':' host
    → in_int64 port ≡ true
    → parse_node_id (get_node_id host port) ≡ ok (host, port)
unfolding parse_node_id get_node_id
parse_node_id-get_node_id host port plain small = rw (
  split-append b':' host (show_int port) plain,
  split_whole b':' (show_int port) (show_int-Lacks b':' port refl refl),
  scan_int-show_int port small,
  parse_node_id,
)

show_int-injective : (a b : ℤ) → show_int a ≡ show_int b → a ≡ b
show_int-injective a b h =
    let same = sym (read_int-show_int a) ∙ ap read_int h ∙ read_int-show_int b in cc same

Lacks-absurd : (c : ℕ) (a s t : Text) → Lacks c t → t ≢ a ++ c ∷ s
Lacks-absurd c [] s [] h e = absurd (cc e)
Lacks-absurd c [] s (y ∷ t) h e = ground (arith, h.0, e)
Lacks-absurd c (x ∷ a) s [] h e = absurd (cc e)
Lacks-absurd c (x ∷ a) s (y ∷ t) h e = Lacks-absurd c a s t h.1 (cc e)

append-injective :
    (c : ℕ) (a b s t : Text) → Lacks c s → Lacks c t → a ++ c ∷ s ≡ b ++ c ∷ t → (a ≡ b) × (s ≡ t)
append-injective c [] [] s t hs ht h = (refl, cc h)
append-injective c [] (y ∷ b) s t hs ht h = absurd (Lacks-absurd c b t s hs (cc h))
append-injective c (x ∷ a) [] s t hs ht h = absurd (Lacks-absurd c a s t ht (cc h))
append-injective c (x ∷ a) (y ∷ b) s t hs ht h =
    let rest = append-injective c a b s t hs ht (cc h) in (cc (h, rest.0), rest.1)

pub port_key-injective : (a b : Text) (p q : ℤ) → port_key a p ≡ port_key b q → (a ≡ b) × (p ≡ q)
port_key-injective a b p q h =
    let parts =
      append-injective b':' a b (show_int p) (show_int q) (show_int-Lacks b':' p refl refl)
        (show_int-Lacks b':' q refl refl) h in
    (parts.0, show_int-injective p q parts.1)
