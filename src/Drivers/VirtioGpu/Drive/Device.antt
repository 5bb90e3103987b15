-- ===== src/Drivers/VirtioGpu/Drive/Device.antt =====
-- What the virtio specification asks of the requests to a GPU: a device that keeps what it has been
-- told, and accepts a request or not.
use fomos.Common.{
  ℕ, ◌+◌, ◌*◌, Option, none, some, List, [], ◌∷◌, ◌>>=◌, ◌>>◌, guard, Bool, true, false, not, ◌&&◌,
  leb, ltb, ◌==◌, if◌then◌else◌,
}
use fomos.Drivers.VirtioGpu.Commands.{
  GpuCommand, Rect, ctrl_hdr, get_capset_info, resource_create_2d, resource_attach_backing,
  set_scanout, transfer_to_host_2d, resource_flush, ctx_create, ctx_attach_resource,
  resource_create_3d, submit_3d,
}

-- A resource, with the address and the length of its backing memory once that is attached.
pub record Resource : Type 0 where
  pub id : ℕ
  pub width : ℕ
  pub height : ℕ
  pub backing : Option (ℕ × ℕ)

-- What the device has been told. `scanout` is the resource that is shown.
pub record Gpu : Type 0 where
  pub resources : List Resource
  pub contexts : List ℕ
  pub scanout : Option ℕ

abbrev pub reset : Gpu
reset = record { resources = []; contexts = []; scanout = none }

abbrev lookup : ℕ → List Resource → Option Resource
lookup id [] = none
lookup id (r ∷ resources) = if r.id == id then some r else lookup id resources

abbrev is_new : ℕ → List Resource → Bool
is_new id [] = not (id == 0)
is_new id (r ∷ resources) = not (r.id == id) && is_new id resources

abbrev attach : ℕ → ℕ × ℕ → List Resource → List Resource
attach id memory [] = []
attach id memory (r ∷ resources) =
    (if r.id == id then record r { backing = some memory } else r) ∷ attach id memory resources

abbrev has : ℕ → List ℕ → Bool
has id [] = false
has id (c ∷ contexts) = if c == id then true else has id contexts

abbrev is_none : Option (ℕ × ℕ) → Bool
is_none none = true
is_none (some _) = false

-- A rectangle that is not empty and lies in the resource.
abbrev inside : Rect → Resource → Bool
inside r res = leb (r.x + r.w) res.width && leb (r.y + r.h) res.height && ltb 0 r.w && ltb 0 r.h

-- The device after a request that meets the conditions: a resource is created under a new number,
-- backed once, and shown and read within its bounds and those of its backing; 3d commands have a
-- context. `none` is a request that the device answers with an error.
unfoldable pub accept : Gpu → GpuCommand → Option Gpu
accept g (ctrl_hdr h) = some g
accept g (get_capset_info c) = some g
accept g (resource_create_2d c) = do
  guard (is_new c.resource_id g.resources)
  some (record g {
    resources =
        record { id = c.resource_id; width = c.width; height = c.height; backing = none }
        ∷ g.resources;
  })
accept g (resource_attach_backing c) = do
  r ← lookup c.resource_id g.resources
  guard (is_none r.backing && (c.nr_entries == 1))
  some (record g { resources = attach c.resource_id (c.addr, c.length) g.resources })
accept g (set_scanout c) = do
  r ← lookup c.resource_id g.resources
  guard (inside c.r r && ltb c.scanout_id 16)
  some (record g { scanout = some c.resource_id })
accept g (transfer_to_host_2d c) = do
  r ← lookup c.resource_id g.resources
  (addr, len) ← r.backing
  guard (inside c.r r && leb (c.offset + 4 * (r.width * c.r.h)) len)
  some g
accept g (resource_flush c) = do r ← lookup c.resource_id g.resources; guard (inside c.r r); some g
accept g (ctx_create c) = do
  guard (not (has c.header.ctx_id g.contexts) && leb c.nlen 64)
  some (record g { contexts = c.header.ctx_id ∷ g.contexts })
accept g (ctx_attach_resource c) = do
  r ← lookup c.handle g.resources
  guard (has c.header.ctx_id g.contexts)
  some g
accept g (resource_create_3d c) = do
  guard (is_new c.args.handle g.resources)
  some (record g {
    resources =
        record { id = c.args.handle; width = c.args.width; height = c.args.height; backing = none }
        ∷ g.resources;
  })
accept g (submit_3d c) = do guard (has c.header.ctx_id g.contexts); some g

unfoldable pub accept_all : Gpu → List GpuCommand → Option Gpu
unfolding accept
accept_all g [] = some g
accept_all g (c ∷ commands) = accept g c >>= λ g'. accept_all g' commands
