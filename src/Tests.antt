-- ===== src/Tests.antt =====
-- Concrete inputs for the theorems of the library, a module for each group of components.
mod OfHeap
mod OfPaging
mod OfBytes
mod OfDisk
mod OfFat16
mod OfConsole
mod OfTasks
mod OfProcess
mod OfSpaces
mod OfStart
mod OfStdlib
mod OfFiles
mod OfKernel
