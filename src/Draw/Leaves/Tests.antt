-- ===== src/Draw/Leaves/Tests.antt =====
-- Runs of the draw computation on a small draw, over a toy hash.
use everdraw.Base.{ℕ, ◌+◌, ◌*◌, ◌<◌, ◌≡◌, refl, arith, length, sum, ok}
use everdraw.Draw.Input.Tests.{raw, input, addresses, normalize-raw}
use everdraw.Draw.Leaves.{Keccak, Output, compute, pick_winner, allocated_fee_amount}
use everdraw.Draw.Leaves.Loops.{total, Numbered}
use everdraw.Draw.Leaves.Winner.{Chosen, random_below, votes, pick_winner-Chosen, votes-weight}
use everdraw.Draw.Leaves.Conservation.{ChosenAll, compute-pays}
use everdraw.Draw.Leaves.Amounts.{allocated_fee_amount-le}

abbrev toy : Keccak
toy = record {
  encoded_hash = λ types values. sum values * 7 + 3;
  packed = λ a b. a * 1000 + b;
  text_hash = λ text. 11;
}

compute-pays_example :
    (out : Output) × (compute toy addresses raw ≡ ok out)
    × (total out.leaves ≡ 1001)
    × Numbered 0 out.leaves
    × (length out.winners ≡ 2)
    × ChosenAll toy input 0 out.winners
compute-pays_example =
    compute-pays toy addresses raw input normalize-raw (omega arith) (omega arith)

pick_winner-Chosen_example :
    (w : ℕ) × (pick_winner toy input.accounts 100 255 7 0 ≡ ok w)
    × Chosen input.accounts (random_below toy 255 7 0 100) 0 w
pick_winner-Chosen_example = pick_winner-Chosen toy input.accounts 255 7 0 (omega arith)

votes-weight_example : votes input.accounts 195 0 0 100 ≡ 60
votes-weight_example = votes-weight input.accounts 195 0

fee_of_hundred : allocated_fee_amount input 100 < 101
fee_of_hundred = omega (arith, allocated_fee_amount-le input 100 refl)
