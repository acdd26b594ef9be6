-- ===== src/Declarations.antt =====
-- The declarations of tensor slots, orientations, signatures and index spaces of
-- python/fortsym/__init__.py, and `TensorSymmetry` of python/fortsym/sympy/__init__.py.
pub mod Symmetry
pub mod TensorSymmetry
pub mod Signature
pub mod IndexSpace
