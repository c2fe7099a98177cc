-- ===== src/Cfxidl/Wire/Replies.antt =====
-- tools/cfxidl/Iface.cpp: the operands in the statements for a command and its response.
use ctrlr_fx.Cfxidl.{Param, Func, Piece, lit}
use ctrlr_fx.Cfxidl.Sources.{n_where, goes_in, comes_out}
use ctrlr_fx.Cfxidl.Sources.Stub.{stub_sends, stub_reads, stub_command, stub_return, stub_reply}
use ctrlr_fx.Cfxidl.Sources.Skel.{skel_reads, skel_writes, skel_params, skel_reply}
use ctrlr_fx.Prelude.{
  ltb, true, not, ◌||◌, Bool-cases, inl, inr, if◌then◌else◌, List, [], ◌∷◌, ◌++◌, ◌≡◌, refl,
  append_assoc, append-nil,
}
use Prim.Native.String.{String}
use text.Mathlib.Text.{◌==◌}
use ctrlr_fx.Cfxidl.Wire.Operands.{
  operands, stub_sent, stub_read, skel_read, skel_sent, names_where, Skips,
}
use ctrlr_fx.Cfxidl.Wire.Params.{
  operands-stub_sends, operands-stub_sends, stub_sends-Skips, stub_sends-Skips, operands-stub_reads,
  operands-stub_reads, stub_reads-Skips, stub_reads-Skips, operands-skel_reads, operands-skel_reads,
  skel_reads-Skips, skel_reads-Skips, operands-skel_writes, operands-skel_writes, skel_writes-Skips,
  skel_writes-Skips, n_where-names_where,
}

unfoldable pub ret_names : String → List String
ret_names type = if type == "void" then [] else "_ret" ∷ []

module _ (ps : List Param) (rest : List Piece) where
  pub operands-stub_command :
      operands stub_sent (stub_command ps ++ rest)
      ≡ names_where goes_in ps ++ operands stub_sent rest
  unfolding stub_command operands
  operands-stub_command = elim (Bool-cases (ltb 0 (n_where goes_in ps))) [
    | inl h ↦
        rw (h, append_assoc (stub_sends ps) (lit ";\n\n" ∷ []) rest)
          (operands-stub_sends ps (lit ";\n\n" ∷ rest))
    | inr h ↦ rw (h, n_where-names_where goes_in ps h) refl
  ]

  pub stub_command_passed : operands stub_read (stub_command ps ++ rest) ≡ operands stub_read rest
  unfolding stub_command operands
  stub_command_passed = elim (Bool-cases (ltb 0 (n_where goes_in ps))) [
    | inl h ↦
        rw (h, append_assoc (stub_sends ps) (lit ";\n\n" ∷ []) rest)
          (stub_sends-Skips ps (lit ";\n\n" ∷ rest))
    | inr h ↦ rw h refl
  ]

  pub operands-skel_params :
      operands skel_read (skel_params ps ++ rest)
      ≡ names_where goes_in ps ++ operands skel_read rest
  unfolding skel_params operands
  operands-skel_params = elim (Bool-cases (ltb 0 (n_where goes_in ps))) [
    | inl h ↦
        rw (h, append_assoc (skel_reads ps) (lit ";\n" ∷ []) rest)
          (operands-skel_reads ps (lit ";\n" ∷ rest))
    | inr h ↦ rw (h, n_where-names_where goes_in ps h) refl
  ]

  pub skel_params_passed : operands skel_sent (skel_params ps ++ rest) ≡ operands skel_sent rest
  unfolding skel_params operands
  skel_params_passed = elim (Bool-cases (ltb 0 (n_where goes_in ps))) [
    | inl h ↦
        rw (h, append_assoc (skel_reads ps) (lit ";\n" ∷ []) rest)
          (skel_reads-Skips ps (lit ";\n" ∷ rest))
    | inr h ↦ rw h refl
  ]

pub operands-stub_return :
    (type : String) (rest : List Piece)
    → operands stub_read (stub_return type ++ rest) ≡ ret_names type ++ operands stub_read rest
unfolding stub_return operands ret_names
operands-stub_return type rest = elim (Bool-cases (type == "void")) [
  | inl v ↦ rw v refl
  | inr v ↦ rw v refl
]

pub stub_return-Skips : (type : String) → Skips stub_sent (stub_return type)
unfolding stub_return operands
stub_return-Skips type rest = elim (Bool-cases (type == "void")) [
  | inl v ↦ rw v refl
  | inr v ↦ rw v refl
]

pub ret_names-void : (type : String) → (type == "void") ≡ true → ret_names type ≡ []
unfolding ret_names
ret_names-void type v = rw v refl

module _ (f : Func) where
  -- The end of a stub's function and of a skeleton's.
  abbrev pub stub_end : List Piece
  stub_end = lit "}\n" ∷ lit "\n" ∷ []

  abbrev pub skel_end : List Piece
  skel_end = lit "\treturn 0;\n" ∷ lit "}\n\n" ∷ []

  pub reply_tail_operands :
      operands stub_read ((stub_reads f.params ++ stub_return f.type ++ lit ";\n" ∷ []) ++ stub_end)
      ≡ names_where comes_out f.params ++ ret_names f.type
  unfolding operands
  reply_tail_operands =
      rw
        (
          append_assoc (stub_reads f.params ++ stub_return f.type) (lit ";\n" ∷ []) stub_end,
          append_assoc (stub_reads f.params) (stub_return f.type) (lit ";\n" ∷ stub_end),
          operands-stub_reads f.params (stub_return f.type ++ lit ";\n" ∷ stub_end),
          operands-stub_return f.type (lit ";\n" ∷ stub_end),
          append-nil (ret_names f.type),
        )
        refl

  pub reply_tail_passed :
      operands stub_sent ((stub_reads f.params ++ stub_return f.type ++ lit ";\n" ∷ []) ++ stub_end)
      ≡ []
  unfolding operands
  reply_tail_passed =
      rw
        (
          append_assoc (stub_reads f.params ++ stub_return f.type) (lit ";\n" ∷ []) stub_end,
          append_assoc (stub_reads f.params) (stub_return f.type) (lit ";\n" ∷ stub_end),
          stub_reads-Skips f.params (stub_return f.type ++ lit ";\n" ∷ stub_end),
          stub_return-Skips f.type (lit ";\n" ∷ stub_end),
        )
        refl

  pub operands-stub_reply :
      operands stub_read (stub_reply f ++ stub_end)
      ≡ names_where comes_out f.params ++ ret_names f.type
  unfolding stub_reply operands
  operands-stub_reply = elim (Bool-cases (f.type == "void")) [
    | inl v ↦ elim (Bool-cases (ltb 0 (n_where comes_out f.params))) [
      | inl h ↦ rw (v, h) reply_tail_operands
      | inr h ↦ rw (v, h, n_where-names_where comes_out f.params h, ret_names-void f.type v) refl
    ]
    | inr v ↦ rw v reply_tail_operands
  ]

  pub stub_reply_passed : operands stub_sent (stub_reply f ++ stub_end) ≡ []
  unfolding stub_reply operands
  stub_reply_passed = elim (Bool-cases (f.type == "void")) [
    | inl v ↦ elim (Bool-cases (ltb 0 (n_where comes_out f.params))) [
      | inl h ↦ rw (v, h) reply_tail_passed
      | inr h ↦ rw (v, h) refl
    ]
    | inr v ↦ rw v reply_tail_passed
  ]

  pub operands-skel_reply :
      operands skel_sent (skel_reply f ++ skel_end)
      ≡ names_where comes_out f.params ++ ret_names f.type
  unfolding skel_reply operands ret_names
  operands-skel_reply = elim (Bool-cases (f.type == "void")) [
    | inl v ↦ elim (Bool-cases (ltb 0 (n_where comes_out f.params))) [
      | inl h ↦
          rw
            (
              v,
              h,
              append-nil (skel_writes f.params),
              append_assoc (skel_writes f.params) (lit ";\n" ∷ []) skel_end,
            )
            (operands-skel_writes f.params (lit ";\n" ∷ skel_end))
      | inr h ↦ rw (v, h, n_where-names_where comes_out f.params h) refl
    ]
    | inr v ↦ elim (Bool-cases (ltb 0 (n_where comes_out f.params))) [
      | inl h ↦
          rw
            (
              v,
              h,
              append_assoc (skel_writes f.params ++ lit " << _ret" ∷ []) (lit ";\n" ∷ []) skel_end,
              append_assoc (skel_writes f.params) (lit " << _ret" ∷ []) (lit ";\n" ∷ skel_end),
            )
            (operands-skel_writes f.params (lit " << _ret" ∷ lit ";\n" ∷ skel_end))
      | inr h ↦
          rw
            (
              v,
              h,
              append_assoc (skel_writes f.params ++ lit " << _ret" ∷ []) (lit ";\n" ∷ []) skel_end,
              append_assoc (skel_writes f.params) (lit " << _ret" ∷ []) (lit ";\n" ∷ skel_end),
            )
            (operands-skel_writes f.params (lit " << _ret" ∷ lit ";\n" ∷ skel_end))
    ]
  ]

  pub skel_reply_passed : operands skel_read (skel_reply f ++ skel_end) ≡ []
  unfolding skel_reply operands
  skel_reply_passed =
      elim (Bool-cases (ltb 0 (n_where comes_out f.params) || not (f.type == "void"))) [
        | inl h ↦ elim (Bool-cases (f.type == "void")) [
          | inl v ↦
              rw
                (
                  h,
                  v,
                  append-nil (skel_writes f.params),
                  append_assoc (skel_writes f.params) (lit ";\n" ∷ []) skel_end,
                )
                (skel_writes-Skips f.params (lit ";\n" ∷ skel_end))
          | inr v ↦
              rw
                (
                  h,
                  v,
                  append_assoc (skel_writes f.params ++ lit " << _ret" ∷ []) (lit ";\n" ∷ [])
                      skel_end,
                  append_assoc (skel_writes f.params) (lit " << _ret" ∷ []) (lit ";\n" ∷ skel_end),
                )
                (skel_writes-Skips f.params (lit " << _ret" ∷ lit ";\n" ∷ skel_end))
        ]
        | inr h ↦ rw h refl
      ]
