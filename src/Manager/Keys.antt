-- ===== src/Manager/Keys.antt =====
-- The keys of the handle cache.
use Prim.Native.Char.{Char, code}
use text.Mathlib.Text.{starts_with}
use text.Mathlib.TextPositions.{starts_with-append}
use text.Mathlib.TextLemmas.{nil-append, cons-append, cons-eq-cons, append_assoc}
use ts_queue.Manager.{key_of}
use ts_queue.Prelude.{
  String, Bool, true, false, ◌||◌, ◌==◌, ◌≡◌, ◌≢◌, refl, sym, ap, ◌∙◌, subst, arith, ◌+++◌,
}

unfoldable pub has_colon : String → Bool
has_colon String.[] = false
has_colon (String.◌∷◌ c s) = code c == b':' || has_colon s

no_colon_tail : (c : Char) (n : String) → has_colon (String.◌∷◌ c n) ≡ false → has_colon n ≡ false
unfolding has_colon
no_colon_tail c n h = ground arith

key-nil : (q : String) → key_of "" q ≡ String.◌∷◌ ":" q
key-nil q = nil-append _ ∙ cons-append ":" "" q ∙ ap (String.◌∷◌ ":") (nil-append q)

key-cons : (c : Char) (n q : String) → key_of (String.◌∷◌ c n) q ≡ String.◌∷◌ c (key_of n q)
key-cons c n q = cons-append c n (":" +++ q)

no_colon_first :
    (c : Char) (n s t : String)
    → has_colon (String.◌∷◌ c n) ≡ false
    → String.◌∷◌ ":" s ≢ String.◌∷◌ c t
unfolding has_colon
no_colon_first c n s t h e =
    let p : ":" ≡ c = (cons-eq-cons.0 e).0 in
    let wrong : (code ":" == b':' || has_colon n) ≡ false =
      subst (λ x. (code x == b':' || has_colon n) ≡ false) (sym p) h in
    absurd (cc)

-- Equal keys of connections without a colon in their names are keys of one pair.
pub key_of-eq :
    (n q n' q' : String)
    → has_colon n ≡ false
    → has_colon n' ≡ false
    → key_of n q ≡ key_of n' q'
    → (n ≡ n') × (q ≡ q')
key_of-eq String.[] q String.[] q' h h' e =
    (refl, (cons-eq-cons.0 (sym (key-nil q) ∙ e ∙ key-nil q')).1)
key_of-eq String.[] q (String.◌∷◌ d n') q' h h' e =
    absurd (no_colon_first d n' q (key_of n' q') h' (sym (key-nil q) ∙ e ∙ key-cons d n' q'))
key_of-eq (String.◌∷◌ c n) q String.[] q' h h' e =
    absurd (no_colon_first c n q' (key_of n q) h (sym (key-nil q') ∙ sym e ∙ key-cons c n q))
key_of-eq (String.◌∷◌ c n) q (String.◌∷◌ d n') q' h h' e =
    let (first, rest) = cons-eq-cons.0 (sym (key-cons c n q) ∙ e ∙ key-cons d n' q') in
    let (same_name, same_queue) =
      key_of-eq n q n' q' (no_colon_tail c n h) (no_colon_tail d n' h') rest in
    (ap (String.◌∷◌ c) same_name ∙ ap (λ x. String.◌∷◌ x n') first, same_queue)

-- A colon in a name moves the border between the name and the queue.
pub key_of_moved : (a b c : String) → key_of (key_of a b) c ≡ key_of a (key_of b c)
key_of_moved a b c =
    append_assoc a (":" +++ b) (":" +++ c) ∙ ap (λ s. a +++ s) (append_assoc ":" b (":" +++ c))

-- `disconnect` looks for this prefix.
pub starts_with-key_of : (n q : String) → starts_with (key_of n q) (n +++ ":") ≡ true
starts_with-key_of n q =
    subst (λ k. starts_with k (n +++ ":") ≡ true) (append_assoc n ":" q)
      (starts_with-append (n +++ ":") q)
