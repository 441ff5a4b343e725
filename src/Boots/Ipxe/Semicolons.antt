-- ===== src/Boots/Ipxe/Semicolons.antt =====
-- boots.py: what iPXE reads of the command line that the script escapes.
use valve_infra.Base.{
  ℕ, zero, suc, Bool, true, false, ◌≡◌, refl, [], ◌∷◌, arith, ◌==◌, All, ◌&&◌, if◌then◌else◌,
}
use valve_infra.Message.Framing.{Bytes}
use valve_infra.Boots.Ipxe.{setting, escaped}

abbrev starts_with : Bytes → Bytes → Bool
starts_with [] s = true
starts_with (p ∷ ps) [] = false
starts_with (p ∷ ps) (c ∷ s) = (p == c) && starts_with ps s

-- iPXE puts a semicolon where the setting is written. The number is of the bytes of the setting
-- that are still to be passed over.
unfoldable expanded : ℕ → Bytes → Bytes
expanded k [] = []
expanded (suc k) (c ∷ s) = expanded k s
expanded zero (c ∷ s) = if starts_with setting (c ∷ s) then 59 ∷ expanded 18 s else c ∷ expanded 0 s

-- A command line without a dollar sign reads back as it was.
expanded-escaped : (s : Bytes) → All (λ c. (36 == c) ≡ false) s → expanded 0 (escaped s) ≡ s
unfolding expanded escaped
expanded-escaped [] h = refl
expanded-escaped (c ∷ s) (hc, hs) = ground (arith, expanded-escaped s hs)

-- The escaped command line has no semicolon, at which iPXE would end the command.
escaped_lem : (s : Bytes) → All (λ c. (c == 59) ≡ false) (escaped s)
unfolding escaped
escaped_lem [] = tt
escaped_lem (c ∷ s) = ground (arith, escaped_lem s)
