-- ===== src/Crypto/Certificates.antt =====
-- Checks of quorum certificates: how many signatures they want, and whose.
use powder_raft.Common.{
  ℕ, zero, length, refl, List, suc, replicate, some, ◌≡◌, ◌∷◌, [], arith, true, map, Option,
  ltb_of_le, ltb, none, false, ap, ◌≤◌, if◌then◌else◌, eqb_of_eq,
}
use powder_raft.Types.{NameWithSignature, QuorumCertificate}
use powder_raft.Crypto.Keys.{PublicKey, get_pubkey, KeyStore, Primitives}
use powder_raft.Crypto.Service.{qc_keys, verify_qc}
use powder_raft.Crypto.{signature_length}

qc_keys-length :
    (keys : KeyStore) (sigs : List NameWithSignature) (known : List PublicKey)
    → qc_keys keys sigs ≡ some known
    → length known ≡ length sigs
unfolding qc_keys
qc_keys-length keys [] known h = ground (arith, h)
qc_keys-length keys (s ∷ sigs) known h = grind (arith, h, qc_keys-length keys sigs)

-- The same signature, over and over.
qc_keys-repeats :
    (keys : KeyStore) (s : NameWithSignature) (key : PublicKey) (count : ℕ)
    → length s.sig ≡ signature_length
    → get_pubkey s.name keys ≡ some key
    → qc_keys keys (replicate count s) ≡ some (replicate count key)
unfolding qc_keys
qc_keys-repeats keys s key zero l k = refl
qc_keys-repeats keys s key (suc count) l k =
    rw (eqb_of_eq (length s.sig) 64 l, k, qc_keys-repeats keys s key count l k) refl

-- The signatures of a certificate that passes have their length and are of nodes with known keys,
-- and there are enough of them.
pub verify_qc-IsKnown :
    (prims : Primitives) (keys : KeyStore) (qc : QuorumCertificate) (min_len : ℕ)
    → verify_qc prims keys qc min_len ≡ true
    → (min_len ≤ length qc.sig)
      × ((known : List PublicKey) × (qc_keys keys qc.sig ≡ some known)
          × (prims.verify_batch (replicate (length known) qc.digest) (map (λ s. s.sig) qc.sig) known
              ≡ true))
unfolding verify_qc
verify_qc-IsKnown prims keys qc min_len = go (qc_keys keys qc.sig) refl
  where
    go :
        (o : Option (List PublicKey))
        → qc_keys keys qc.sig ≡ o
        → (elim o [
          | none ↦ false
          | some known ↦
              if ltb (length known) min_len
              then false
              else prims.verify_batch
                  (replicate (length known) qc.digest)
                  (map (λ s. s.sig) qc.sig)
                  known
        ])
          ≡ true
        → (min_len ≤ length qc.sig)
          × ((known : List PublicKey) × (qc_keys keys qc.sig ≡ some known)
              × (prims.verify_batch
                    (replicate (length known) qc.digest)
                    (map (λ s. s.sig) qc.sig)
                    known
                  ≡ true))
    go none e h = absurd (ground (arith, h))
    go (some known) e h =
        (ground (arith, h, qc_keys-length keys qc.sig known e), (known, e, ground (arith, h)))

length-replicate : {A : Type 0} (n : ℕ) (x : A) → length (replicate n x) ≡ n
length-replicate zero x = refl
length-replicate (suc n) x = omega (arith, length-replicate n x)

map-replicate :
    {A B : Type 0} (f : A → B) (n : ℕ) (x : A) → map f (replicate n x) ≡ replicate n (f x)
map-replicate f zero x = refl
map-replicate f (suc n) x = ap (λ ys. f x ∷ ys) (map-replicate f n x)

-- If a node's key is known, its signature has its length, and batch verification accepts that
-- signature `min_len` times over, then a certificate that repeats the one signature `min_len` times
-- passes.
pub verify_qc-repeats :
    (prims : Primitives) (keys : KeyStore) (qc : QuorumCertificate) (s : NameWithSignature)
    (key : PublicKey) (min_len : ℕ)
    → length s.sig ≡ signature_length
    → get_pubkey s.name keys ≡ some key
    → prims.verify_batch
        (replicate min_len qc.digest)
        (replicate min_len s.sig)
        (replicate min_len key)
      ≡ true
    → verify_qc prims keys (record qc { sig = replicate min_len s }) min_len ≡ true
unfolding verify_qc
verify_qc-repeats prims keys qc s key min_len l k b = passes
  where
    passes :
        (elim (qc_keys keys (replicate min_len s)) [
          | none ↦ false
          | some known ↦
              if ltb (length known) min_len
              then false
              else prims.verify_batch
                  (replicate (length known) qc.digest)
                  (map (λ (t : NameWithSignature). t.sig) (replicate min_len s))
                  known
        ])
        ≡ true
    passes =
        rw
          (
            qc_keys-repeats keys s key min_len l k,
            map-replicate (λ (t : NameWithSignature). t.sig) min_len s,
            length-replicate min_len key,
            ltb_of_le min_len min_len (omega arith),
          )
          b
