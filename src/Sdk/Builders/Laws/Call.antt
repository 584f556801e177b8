-- ===== src/Sdk/Builders/Laws/Call.antt =====
-- Every builder of instructions.ts and vrf.ts, of whichever part of the program.
use playkaboom.Common.{◌≡◌, List, ◌++◌, Result, ok, String}
use playkaboom.Sdk.Buffer.{Bytes}
use playkaboom.Sdk.Web3.{Web3, IsWeb3}
use playkaboom.Sdk.Discriminator.{ix_discriminator}
use playkaboom.Sdk.Builders.Instruction.{TransactionInstruction}
use playkaboom.Sdk.Builders.Laws.Writes.{IsBuilt}
use playkaboom.Sdk.Builders.Laws.Game as GameLaws
use playkaboom.Sdk.Builders.Laws.Vault as VaultLaws
use playkaboom.Sdk.Builders.Laws.Lp as LpLaws
use playkaboom.Sdk.Builders.Laws.Vrf as VrfLaws

-- A call of a builder, with its arguments
pub data Call (K : Type 0) : Type 0 where
  game : GameLaws.Call K → Call K
  vault : VaultLaws.Call K → Call K
  lp : LpLaws.Call K → Call K
  vrf : VrfLaws.Call K → Call K

module _ {K : Type 0} where
  -- The arguments that the builder accepts
  abbrev pub Fits : Call K → Type 0
  Fits (game c) = GameLaws.Fits c
  Fits (vault c) = VaultLaws.Fits c
  Fits (lp c) = LpLaws.Fits c
  Fits (vrf c) = VrfLaws.Fits c

  -- The name of the program's instruction, and the keys that it asks to sign
  abbrev pub name : Call K → String
  name (game c) = GameLaws.name c
  name (vault c) = VaultLaws.name c
  name (lp c) = LpLaws.name c
  name (vrf c) = VrfLaws.name c

  abbrev pub authority : Call K → List K
  authority (game c) = GameLaws.authority c
  authority (vault c) = VaultLaws.authority c
  authority (lp c) = LpLaws.authority c
  authority (vrf c) = VrfLaws.authority c

module _ (w : Web3) where
  open w use {PublicKey}

  abbrev pub arguments : Call PublicKey → Bytes
  arguments (game c) = GameLaws.arguments c
  arguments (vault c) = VaultLaws.arguments w c
  arguments (lp c) = LpLaws.arguments w c
  arguments (vrf c) = VrfLaws.arguments w c

  abbrev pub build : PublicKey → Call PublicKey → Result (TransactionInstruction PublicKey)
  build program_id (game c) = GameLaws.build w program_id c
  build program_id (vault c) = VaultLaws.build w program_id c
  build program_id (lp c) = LpLaws.build w program_id c
  build program_id (vrf c) = VrfLaws.build w program_id c

  abbrev pub IsExact : PublicKey → Call PublicKey → Type 0
  IsExact program_id c =
      (Fits c
        → IsBuilt (build program_id c) program_id (ix_discriminator w (name c) ++ arguments c)
            (authority c))
      × ((ix : TransactionInstruction PublicKey) → build program_id c ≡ ok ix → Fits c)

-- Each of the builders returns exactly for arguments that fit their fields, and then it builds an
-- instruction of the program with the instruction's discriminator and the arguments in the program's
-- layout, the units of a withdrawal request modulo 2 ^ 128, which asks for the signature of its
-- authority alone, and of none where a withdrawal is completed for another.
pub build-IsExact :
    {w : Web3} (h : IsWeb3 w) (program_id : w.PublicKey) (c : Call w.PublicKey)
    → IsExact w program_id c
build-IsExact h program_id (game c) =
    (GameLaws.build_game_lem h program_id c, λ ix e. GameLaws.build_game-Fits h program_id c e)
build-IsExact h program_id (vault c) =
    (VaultLaws.build_vault_lem h program_id c, λ ix e. VaultLaws.build_vault-Fits h program_id c e)
build-IsExact h program_id (lp c) =
    (LpLaws.build_lp_lem h program_id c, λ ix e. LpLaws.build_lp-Fits h program_id c e)
build-IsExact h program_id (vrf c) =
    (VrfLaws.build_vrf_lem h program_id c, λ ix e. VrfLaws.build_vrf-Fits h program_id c e)
