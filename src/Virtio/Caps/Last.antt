-- ===== src/Virtio/Caps/Last.antt =====
-- Which structures the scan of the capabilities ends with.
use mathlib.Core.Option
use fomos.Common.{
  ℕ, zero, suc, ◌+◌, ◌≤◌, ◌<◌, ◌≡◌, ◌≢◌, refl, ap, ◌∙◌, Bool, true, false, Option, none, some, List,
  [], ◌∷◌, get_or, get_elem?-eq-get_or, length, All, ◌==◌, ==_ne, ==_iff, if◌then◌else◌, if_true,
  if_false, arith,
}
use fomos.Pci.{Bar, no_bar, io, mm}
use fomos.Virtio.Caps.{
  VirtioCap, Caps, no_caps, CfgType, common_cfg, notify_cfg, isr_cfg, device_cfg, pci_cfg,
  other_cfg, cfg_type_of, or_else, found, out_of_fuel, at, cap_of, structure, store_cap, read_cap,
  scan_caps,
}

-- The last entry of a list that has something.
abbrev pub last_of : {T : Type 0} → (ℕ → Option T) → List ℕ → Option T
last_of f [] = none
last_of f (off ∷ offs) = or_else (last_of f offs) (f off)

or_else_assoc : {T : Type 0} (a b c : Option T) → or_else a (or_else b c) ≡ or_else (or_else a b) c
or_else_assoc none b c = refl
or_else_assoc (some a) b c = refl

or_else-none : {T : Type 0} (a : Option T) → or_else a none ≡ a
or_else-none none = refl
or_else-none (some a) = refl

Caps-eq :
    {a a' b b' c c' : Option (VirtioCap ℕ)} {d d' : Option (VirtioCap (List ℕ))}
    → a ≡ a'
    → b ≡ b'
    → c ≡ c'
    → d ≡ d'
    → ◌≡◌ {A = Caps}
        (record { common = a; device = b; notify = c; pci_conf = d })
        (record { common = a'; device = b'; notify = c'; pci_conf = d' })
Caps-eq ea eb ec ed = rw (ea, eb, ec, ed) refl

-- One more entry at the front, seen before the others.
last_of-cons :
    {T : Type 0} (f : ℕ → Option T) (off : ℕ) (offs : List ℕ) (old : Option T)
    → or_else (last_of f offs) (or_else (f off) old) ≡ or_else (last_of f (off ∷ offs)) old
last_of-cons f off offs old = or_else_assoc (last_of f offs) (f off) old

last_of-none :
    {T : Type 0} (f : ℕ → Option T) (offs : List ℕ) → or_else (last_of f offs) none ≡ last_of f offs
last_of-none f offs = or_else-none (last_of f offs)

module _ (read_u8 read_u32 : ℕ → ℕ) (phys_to_virt : ℕ → Option ℕ) (bars : List Bar) where
  -- The type of the capability at an offset, if it is one of virtio.
  unfoldable pub type_at : ℕ → CfgType
  type_at off = if read_u8 off == 9 then cfg_type_of (read_u8 (at off 3)) else other_cfg

  abbrev pub bar_at : ℕ → Bar
  bar_at off = get_or bars (read_u8 (at off 4)) no_bar

  abbrev structure_in : ℕ → Bar → Option (VirtioCap ℕ)
  structure_in off (mm phys) =
      Option.map (λ ptr. cap_of read_u8 read_u32 phys_to_virt bars off ptr (mm phys))
        (phys_to_virt (phys + read_u32 (at off 8)))
  structure_in off bar = none

  abbrev common_if : CfgType → ℕ → Option (VirtioCap ℕ)
  common_if common_cfg off = structure_in off (bar_at off)
  common_if _ off = none

  abbrev device_if : CfgType → ℕ → Option (VirtioCap ℕ)
  device_if device_cfg off = structure_in off (bar_at off)
  device_if _ off = none

  abbrev notify_if : CfgType → ℕ → Option (VirtioCap ℕ)
  notify_if notify_cfg off =
      some (cap_of read_u8 read_u32 phys_to_virt bars off (read_u32 (at off 16)) (bar_at off))
  notify_if _ off = none

  abbrev pci_conf_if : CfgType → ℕ → Option (VirtioCap (List ℕ))
  pci_conf_if pci_cfg off = some (
      cap_of read_u8 read_u32 phys_to_virt bars off
        (read_u8 (at off 16) ∷ read_u8 (at off 17) ∷ read_u8 (at off 18) ∷ read_u8 (at off 19) ∷ [])
        (bar_at off))
  pci_conf_if _ off = none

  -- A capability that says where a structure is names one of the bars, and a structure that is read
  -- lies in the physical memory.
  abbrev IsMapped : ℕ → Bar → Type 0
  IsMapped off (mm phys) = (ptr : ℕ) × (phys_to_virt (phys + read_u32 (at off 8)) ≡ some ptr)
  IsMapped off bar = Unit {0}

  abbrev IsReadableAs : CfgType → ℕ → Type 0
  IsReadableAs common_cfg off = (read_u8 (at off 4) < length bars) × IsMapped off (bar_at off)
  IsReadableAs device_cfg off = (read_u8 (at off 4) < length bars) × IsMapped off (bar_at off)
  IsReadableAs notify_cfg off = read_u8 (at off 4) < length bars
  IsReadableAs pci_cfg off = read_u8 (at off 4) < length bars
  IsReadableAs isr_cfg off = Unit {0}
  IsReadableAs other_cfg off = Unit {0}

  abbrev pub IsReadable : ℕ → Type 0
  IsReadable off = IsReadableAs (type_at off) off

  -- The offsets that the list goes through from one of them on, the last with a 0 for the next.
  pub data Chain : ℕ → List ℕ → Type 0 where
    ends : (off : ℕ) → read_u8 (at off 1) ≡ 0 → Chain off (off ∷ [])
    goes_on :
        (off : ℕ) (offs : List ℕ)
        → read_u8 (at off 1) ≢ 0
        → Chain (read_u8 (at off 1)) offs
        → Chain off (off ∷ offs)

  abbrev after_as : CfgType → ℕ → Caps → Caps
  after_as t off caps = record {
    common = or_else (common_if t off) caps.common;
    device = or_else (device_if t off) caps.device;
    notify = or_else (notify_if t off) caps.notify;
    pci_conf = or_else (pci_conf_if t off) caps.pci_conf;
  }

  structure_lem :
      (off : ℕ) (bar : Bar)
      → IsMapped off bar
      → structure read_u8 read_u32 phys_to_virt bars off bar ≡ some (structure_in off bar)
  unfolding structure
  structure_lem off (mm phys) (ptr, e) = rw e refl
  structure_lem off (io port) mapped = refl
  structure_lem off no_bar mapped = refl

  store_cap_lem :
      (t : CfgType) (off : ℕ) (caps : Caps)
      → IsReadableAs t off
      → store_cap read_u8 read_u32 phys_to_virt bars t off caps ≡ some (after_as t off caps)
  unfolding store_cap
  store_cap_lem common_cfg off caps (h, mapped) =
      rw
        (
          get_elem?-eq-get_or bars (read_u8 (at off 4)) no_bar h,
          structure_lem off (bar_at off) mapped,
        )
        refl
  store_cap_lem device_cfg off caps (h, mapped) =
      rw
        (
          get_elem?-eq-get_or bars (read_u8 (at off 4)) no_bar h,
          structure_lem off (bar_at off) mapped,
        )
        refl
  store_cap_lem notify_cfg off caps h =
      rw (get_elem?-eq-get_or bars (read_u8 (at off 4)) no_bar h) refl
  store_cap_lem pci_cfg off caps h =
      rw (get_elem?-eq-get_or bars (read_u8 (at off 4)) no_bar h) refl
  store_cap_lem isr_cfg off caps h = refl
  store_cap_lem other_cfg off caps h = refl

  read_cap_lem :
      (off : ℕ) (caps : Caps)
      → IsReadable off
      → read_cap read_u8 read_u32 phys_to_virt bars off caps
        ≡ some (after_as (type_at off) off caps)
  unfolding read_cap type_at
  read_cap_lem off caps h = by_id (read_u8 off == 9) h
    where
      t : CfgType
      t = cfg_type_of (read_u8 (at off 3))

      by_id :
          (b : Bool)
          → IsReadableAs (if b then t else other_cfg) off
          → (if b then store_cap read_u8 read_u32 phys_to_virt bars t off caps else some caps)
            ≡ some (after_as (if b then t else other_cfg) off caps)
      by_id true h = store_cap_lem t off caps h
      by_id false h = refl

  scan_step :
      (fuel off : ℕ) (caps : Caps)
      → IsReadable off
      → scan_caps read_u8 read_u32 phys_to_virt bars (suc fuel) off caps ≡ (
          if read_u8 (at off 1) == 0
          then found (after_as (type_at off) off caps)
          else scan_caps read_u8 read_u32 phys_to_virt bars fuel
              (read_u8 (at off 1))
              (after_as (type_at off) off caps))
  unfolding scan_caps
  scan_step fuel off caps h = rw (scan_caps, read_cap_lem off caps h) refl

  -- What is found when the scan begins with `caps`.
  abbrev result : Caps → List ℕ → Caps
  result caps offs = record {
    common = or_else (last_of (λ o. common_if (type_at o) o) offs) caps.common;
    device = or_else (last_of (λ o. device_if (type_at o) o) offs) caps.device;
    notify = or_else (last_of (λ o. notify_if (type_at o) o) offs) caps.notify;
    pci_conf = or_else (last_of (λ o. pci_conf_if (type_at o) o) offs) caps.pci_conf;
  }

  result_cons :
      (off : ℕ) (offs : List ℕ) (caps : Caps)
      → result (after_as (type_at off) off caps) offs ≡ result caps (off ∷ offs)
  result_cons off offs caps =
      Caps-eq (last_of-cons (λ o. common_if (type_at o) o) off offs caps.common)
        (last_of-cons (λ o. device_if (type_at o) o) off offs caps.device)
        (last_of-cons (λ o. notify_if (type_at o) o) off offs caps.notify)
        (last_of-cons (λ o. pci_conf_if (type_at o) o) off offs caps.pci_conf)

  scan_from :
      (fuel off : ℕ) (offs : List ℕ) (caps : Caps)
      → Chain off offs
      → All IsReadable offs
      → length offs ≤ fuel
      → scan_caps read_u8 read_u32 phys_to_virt bars fuel off caps ≡ found (result caps offs)
  scan_from zero off offs caps (ends off' e) ok enough = absurd (omega arith)
  scan_from zero off offs caps (goes_on off' offs' e chain) ok enough = absurd (omega arith)
  scan_from (suc fuel) off offs caps (ends off' e) (h, ok) enough =
      scan_step fuel off caps h
      ∙ if_true (read_u8 (at off 1) == 0) _ _ ((==_iff (read_u8 (at off 1)) 0).1 e)
  scan_from (suc fuel) off offs caps (goes_on off' offs' e chain) (h, ok) enough =
      scan_step fuel off caps h
      ∙ if_false (read_u8 (at off 1) == 0) _ _ (==_ne (read_u8 (at off 1)) 0 e)
      ∙ scan_from fuel (read_u8 (at off 1)) offs' (after_as (type_at off) off caps) chain ok
          (omega arith)
      ∙ ap found (result_cons off offs' caps)

  -- What the scan finds on a list of capabilities from the offsets `offs`.
  abbrev pub last_caps : List ℕ → Caps
  last_caps offs = record {
    common = last_of (λ o. common_if (type_at o) o) offs;
    device = last_of (λ o. device_if (type_at o) o) offs;
    notify = last_of (λ o. notify_if (type_at o) o) offs;
    pci_conf = last_of (λ o. pci_conf_if (type_at o) o) offs;
  }

  -- On a list of capabilities that ends and can be read, the scan ends after as many rounds as the
  -- list is long, and has found the last structure of each type.
  pub scan_caps-last :
      (fuel off : ℕ) (offs : List ℕ)
      → Chain off offs
      → All IsReadable offs
      → length offs ≤ fuel
      → scan_caps read_u8 read_u32 phys_to_virt bars fuel off no_caps ≡ found (last_caps offs)
  scan_caps-last fuel off offs chain ok enough =
      scan_from fuel off offs no_caps chain ok enough
      ∙ ap found (
          Caps-eq (last_of-none (λ o. common_if (type_at o) o) offs)
            (last_of-none (λ o. device_if (type_at o) o) offs)
            (last_of-none (λ o. notify_if (type_at o) o) offs)
            (last_of-none (λ o. pci_conf_if (type_at o) o) offs))

  -- The n-th offset of the list.
  abbrev pub nth_off : ℕ → ℕ → ℕ
  nth_off zero off = off
  nth_off (suc n) off = nth_off n (read_u8 (at off 1))

  -- If no offset of the list is 0, as when it leads back to itself, the scan goes on for ever.
  pub scan_caps-endless :
      (fuel off : ℕ) (caps : Caps)
      → ((n : ℕ) → IsReadable (nth_off n off))
      → ((n : ℕ) → nth_off (suc n) off ≢ 0)
      → scan_caps read_u8 read_u32 phys_to_virt bars fuel off caps ≡ out_of_fuel
  unfolding scan_caps
  scan_caps-endless zero off caps ok endless = refl
  scan_caps-endless (suc fuel) off caps ok endless =
      scan_step fuel off caps (ok 0)
      ∙ if_false (read_u8 (at off 1) == 0) _ _ (==_ne (read_u8 (at off 1)) 0 (endless 0))
      ∙ scan_caps-endless fuel (read_u8 (at off 1)) (after_as (type_at off) off caps)
          (λ n. ok (suc n)) (λ n. endless (suc n))
