-- ===== src/Tests/Digests.antt =====
-- SHA-1 and the padding of discs at concrete inputs.
use obmafs.Prelude.{arith, ℕ, ◌≡◌, refl, List, [], ◌∷◌, replicate, length, length-replicate, take}
use obmafs.Sha1.{Sha1Ctx, initial, sha1_init, sha1_final, sha1_hash}
use obmafs.Sha1.Blocks.{joined}
use obmafs.Sha1.Digest.{IsDigest, updates, sha1_hash-IsDigest, sha1_final-updates}
use obmafs.Lfg.{Lfg, lfg_k, lfg_forward, lfg_backward, times, set_seed, get_bytes, get_seed}
use obmafs.Lfg.Stream.{emit, get_bytes-emit}
use obmafs.Lfg.Inverse.{times-lfg_backward-times-lfg_forward}
use obmafs.Lfg.Seed.{get_bytes-get_seed}

abbrev unused : Sha1Ctx
unused = record { state = initial; count = 7; buffer = replicate 64 3 }

abbrev abc : List ℕ
abc = 0x61 ∷ 0x62 ∷ 0x63 ∷ []

sha1_hash-IsDigest_example : IsDigest abc (sha1_hash unused abc)
sha1_hash-IsDigest_example = sha1_hash-IsDigest unused abc refl

sha1_final-updates_example :
    sha1_final (updates (sha1_init unused) (abc ∷ replicate 70 1 ∷ [] ∷ []))
    ≡ sha1_hash unused (joined (abc ∷ replicate 70 1 ∷ [] ∷ []))
sha1_final-updates_example =
    sha1_final-updates unused unused (abc ∷ replicate 70 1 ∷ [] ∷ []) refl refl

abbrev padding : List ℕ
padding = replicate 4096 0

abbrev blank : Lfg
blank = record { buffer = replicate 521 0; position_bytes = 0 }

blank_room : length blank.buffer ≡ lfg_k
blank_room = length-replicate {A = ℕ} 521 0

get_bytes-get_seed_example :
    let found : ℕ × List ℕ = get_seed 0x1000 padding 2048 [] in
    (get_bytes (get_bytes (set_seed blank found.1) 2048).1 found.0).0 ≡ take found.0 padding
get_bytes-get_seed_example =
    get_bytes-get_seed blank 0x1000 padding 2048 [] blank_room (omega arith) (omega arith)

get_bytes-emit_example :
    get_bytes (record { buffer = replicate 521 9; position_bytes = 2080 }) 3000
    ≡ emit 3000 (record { buffer = replicate 521 9; position_bytes = 2080 })
get_bytes-emit_example =
    get_bytes-emit (record { buffer = replicate 521 9; position_bytes = 2080 }) 3000 (omega arith)

times-lfg_backward-times-lfg_forward_example :
    times 3 (λ b. lfg_backward 0 lfg_k b) (times 3 lfg_forward (replicate 521 9)) ≡ replicate 521 9
times-lfg_backward-times-lfg_forward_example =
    times-lfg_backward-times-lfg_forward 3 (replicate 521 9)
