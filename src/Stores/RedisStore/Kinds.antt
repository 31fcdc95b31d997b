-- ===== src/Stores/RedisStore/Kinds.antt =====
-- src/stores/redis.rs: the keys of one client, by their kinds, and of different clients.
use armature_ratelimit.Float.{Float}
use armature_ratelimit.Prelude.{
  ◌≡◌, refl, false, [], ◌∷◌, ◌++◌, Text, codes, text_eq, arith, length,
}
use armature_ratelimit.Redis.{Redis}
use armature_ratelimit.Stores.RedisStore.{RedisStore, key}

-- What the store keeps of a client: the counter of a window has the window's number in its name.
pub data Kind : Type 0 where
  tb sw swmax swseq fwmax fwcur : Kind
  fw : (window_id : Text) → Kind

abbrev pub suffix_of : Text → Kind → Text
suffix_of digest tb = codes "tb:" ++ digest
suffix_of digest sw = codes "sw:" ++ digest
suffix_of digest swmax = codes "swmax:" ++ digest
suffix_of digest swseq = codes "swseq:" ++ digest
suffix_of digest fwmax = codes "fwmax:" ++ digest
suffix_of digest fwcur = codes "fwcur:" ++ digest
suffix_of digest (fw id) = codes "fw:" ++ (digest ++ (codes ":" ++ id))

abbrev pub key_of : (fl : Float) (r : Redis fl) → RedisStore fl r → Text → Kind → Text
key_of fl r store digest kind = key fl r store (suffix_of digest kind)

text_eq-append_other :
    (d e s t : Text) → length d ≡ length e → text_eq d e ≡ false → text_eq (d ++ s) (e ++ t) ≡ false
unfolding text_eq
text_eq-append_other [] [] s t l n = cc
text_eq-append_other [] (y ∷ e) s t l n = absurd (omega arith)
text_eq-append_other (x ∷ d) [] s t l n = absurd (omega arith)
text_eq-append_other (x ∷ d) (y ∷ e) s t l n = ground (arith, text_eq-append_other d e s t)

-- No key of one client is a key of another, of whatever kinds.
pub suffix_of_other :
    (d e : Text) (k j : Kind)
    → length d ≡ length e
    → text_eq d e ≡ false
    → text_eq (suffix_of d k) (suffix_of e j) ≡ false
unfolding text_eq
suffix_of_other d e tb tb l n = n
suffix_of_other d e sw sw l n = n
suffix_of_other d e swmax swmax l n = n
suffix_of_other d e swseq swseq l n = n
suffix_of_other d e fwmax fwmax l n = n
suffix_of_other d e fwcur fwcur l n = n
suffix_of_other d e (fw id) (fw id') l n =
    text_eq-append_other d e (codes ":" ++ id) (codes ":" ++ id') l n
suffix_of_other d e k j l n = refl
