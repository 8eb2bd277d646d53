-- ===== src/Tftp/Get/Tests.antt =====
-- Calls of Get of go-susi/tftp/get.go on a file of three bytes.
use limux_gosa.Base.{
  ℕ, suc, ◌<◌, ◌≤◌, true, some, List, [], ◌∷◌, ◌++◌, All, length, replicate, ◌≡◌, refl, arith,
}
use limux_gosa.Base.Text.{Text, codes}
use limux_gosa.Tftp.Transfer.{data_packet}
use limux_gosa.Tftp.Get.{Event, Get, Outcome, done, get}
use limux_gosa.Tftp.Get.Blocks.{IsServed, opens, written_of}
use limux_gosa.Tftp.Get.Laws.{get_lem}
use limux_gosa.Tftp.Get.Short.{lost, answer, delivered, get_delivers}

abbrev abc : ℕ → Text
abc n = codes "abc"

-- A lost round, a stray that is too short, the file, and a stray.
abbrev rounds : List Event
rounds =
    lost
    ∷ answer 7 (1 ∷ [])
    ∷ answer 69 (data_packet 1 (codes "abc"))
    ∷ answer 7 (codes "stray")
    ∷ []

abbrev ended : Get
ended = record (delivered (codes "pxe") 2 69 (codes "abc")) { port = some 69 }

runs : get (codes "pxe") (λ n. true) rounds ≡ done ended
unfolding get data_packet
runs = refl

opened : opens abc 1 69 rounds ≡ true
unfolding data_packet
opened = refl

served : All (λ (e : Event). IsServed abc 1 69 e.datagram) rounds
served = (
  tt,
  (
    (λ p q. absurd (omega (arith, p))),
    ((λ p q. (1, omega arith, omega arith, refl)), ((λ p q. absurd (omega (arith, p))), tt)),
  ),
)

get_lem_example :
    (n : ℕ) × (n < 1)
    × (ended.written ≡ written_of abc (suc n))
    × (length (abc (suc n)) < 508)
    × ((i : ℕ) → 1 ≤ i → i ≤ n → 508 ≤ length (abc i))
get_lem_example =
    get_lem abc 1 69 (codes "pxe") (λ n. true) rounds ended (omega arith) opened served runs

get_delivers_example :
    get (codes "pxe") (λ n. true) (replicate 2 lost ++ answer 69 (data_packet 1 (codes "abc")) ∷ [])
    ≡ done (delivered (codes "pxe") 2 69 (codes "abc"))
get_delivers_example =
    get_delivers (codes "pxe") (codes "abc") 2 69 (λ n. true) [] (omega arith) refl

-- A full block of 512 bytes, and the empty one behind it: the file that is written lacks four bytes.
abbrev two_blocks : List Event
two_blocks = answer 69 (data_packet 1 (replicate 512 7)) ∷ answer 69 (data_packet 2 []) ∷ []

abbrev written_by : Outcome → Text
written_by (done g) = g.written
written_by _ = []

cuts_block : length (written_by (get (codes "pxe") (λ n. true) two_blocks)) ≡ 508
unfolding get data_packet
cuts_block = refl
